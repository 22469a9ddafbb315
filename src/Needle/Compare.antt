-- ===== src/Needle/Compare.antt =====
-- goblob/storage/needle/needle_read.go: Equals and Clone. A nil needle is `none`.
use go_blob.Base.{
  ◌≡◌, ◌↔◌, refl, Bool, true, false, ◌&&◌, ◌||◌, not, Option, none, some, ◌==◌, arith,
}
use go_blob.Bytes.{bytes_equal}
use go_blob.Bytes.Laws.{bytes_equal_iff}
use go_blob.Needle.{Needle, blank, has_name, has_mime, has_pairs, has_last_modified, has_ttl}

-- Equals, for needles that are not nil.
unfoldable pub same_needle : Needle → Needle → Bool
same_needle n m =
    (n.cookie == m.cookie && (n.id == m.id && n.data_size == m.data_size))
    && (bytes_equal n.payload m.payload
        && (n.flags == m.flags
            && ((not (has_name n) || bytes_equal n.name m.name)
                && ((not (has_mime n) || bytes_equal n.mime m.mime)
                    && ((not (has_pairs n) || bytes_equal n.pairs m.pairs)
                        && ((not (has_last_modified n) || n.last_modified == m.last_modified)
                            && ((not (has_ttl n)
                                  || (n.ttl.count == m.ttl.count && n.ttl.unit == m.ttl.unit))
                                && n.checksum == m.checksum)))))))

-- Equals
unfoldable pub equals : Option Needle → Option Needle → Bool
equals none none = true
equals (some n) (some m) = same_needle n m
equals _ _ = false

-- Clone: the struct literal, then the fields that are set behind it.
unfoldable pub clone : Option Needle → Option Needle
clone none = none
clone (some n) =
    some
      (record (record blank {
        cookie = n.cookie;
        id = n.id;
        size = n.size;
        data_size = n.data_size;
        flags = n.flags;
        checksum = n.checksum;
        append_at_ns = n.append_at_ns;
        last_modified = n.last_modified;
      }) { payload = n.payload; name = n.name; mime = n.mime; pairs = n.pairs; ttl = n.ttl })

-- Two needles that are equal up to what their flags say is absent, up to Size and the time stamp.
record Same (n m : Needle) : Type 0 where
  cookie : n.cookie ≡ m.cookie
  id : n.id ≡ m.id
  data_size : n.data_size ≡ m.data_size
  payload : n.payload ≡ m.payload
  flags : n.flags ≡ m.flags
  name : has_name n ≡ true → n.name ≡ m.name
  mime : has_mime n ≡ true → n.mime ≡ m.mime
  pairs : has_pairs n ≡ true → n.pairs ≡ m.pairs
  last_modified : has_last_modified n ≡ true → n.last_modified ≡ m.last_modified
  ttl : has_ttl n ≡ true → n.ttl ≡ m.ttl
  checksum : n.checksum ≡ m.checksum

-- Equals holds exactly of needles that agree in all fields but Size and AppendAtNs, where the
-- optional fields count only if the first needle's flag is set.
equals_iff : (n m : Needle) → (equals (some n) (some m) ≡ true) ↔ Same n m
unfolding equals same_needle
equals_iff n m = ground (
  arith,
  bytes_equal_iff n.payload m.payload,
  bytes_equal_iff n.name m.name,
  bytes_equal_iff n.mime m.mime,
  bytes_equal_iff n.pairs m.pairs,
)

equals-none : equals none none ≡ true
unfolding equals
equals-none = refl

equals_self : (n : Needle) → equals (some n) (some n) ≡ true
equals_self n = (equals_iff n n).1 (record {
  cookie = refl;
  id = refl;
  data_size = refl;
  payload = refl;
  flags = refl;
  name = λ _. refl;
  mime = λ _. refl;
  pairs = λ _. refl;
  last_modified = λ _. refl;
  ttl = λ _. refl;
  checksum = refl;
})

-- A clone is equal to its needle.
equals-clone : (n : Option Needle) → (clone n ≡ n) × (equals n (clone n) ≡ true)
unfolding clone
equals-clone none = (refl, equals-none)
equals-clone (some n) = (refl, equals_self n)
