-- ===== src/Needle/Layout.antt =====
-- The two ways in which needle_write.go lays out a body agree.
use go_blob.Base.{
  ℕ, zero, suc, ◌+◌, ◌%◌, ◌≤◌, ◌<◌, ◌≡◌, refl, sym, ap, ◌∙◌, Bool, true, false, some, List, [], ◌∷◌,
  ◌++◌, arith, if◌then◌else◌, length, length-append, take, drop, replicate, length-replicate,
  take-append_length, drop-append_length, take_of_length-le, append_assoc, append-nil, u8, u16, u32,
}
use go_blob.Bytes.{put_be}
use go_blob.Types.{ttl_bytes}
use go_blob.Bytes.Laws.{length-put_be}
use go_blob.Needle.{Needle, has_name, has_mime, has_last_modified, has_ttl, has_pairs}
use go_blob.Needle.Write.{
  Buffer, emit, emit_if, write_uint40, body_bytes, build_body_bytes, alloc_size,
}
use native.Mathlib.Nat.{mod-eq_of_lt, zero-add, suc-add}

abbrev zeros : ℕ → List ℕ
zeros k = replicate k 0

-- A buffer of which `done` is written, with `k` zeros behind it.
abbrev filled : List ℕ → ℕ → Buffer
filled done k = record { bytes = done ++ zeros k; offset = length done }

drop-zeros : (m k : ℕ) → drop m (zeros (m + k)) ≡ zeros k
drop-zeros zero k = rw zero-add
drop-zeros (suc m) k = rw suc-add (drop-zeros m k)

emit-filled :
    (m k : ℕ) (src done : List ℕ)
    → length src ≡ m
    → emit m src (filled done (m + k)) ≡ some (filled (done ++ src) k)
unfolding emit
emit-filled m k src done e =
    simp (all, take-append_length, drop-append_length, e, drop-zeros, append_assoc, length-append)
      (ground (arith, length-replicate {A = ℕ} (m + k) 0))
  where
    all : take m src ≡ src
    all = take_of_length-le m src (omega arith)

emit_if-filled :
    (b : Bool) (m k : ℕ) (src done : List ℕ)
    → length src ≡ m
    → emit_if b m src (filled done ((if b then m else 0) + k))
      ≡ some (filled (done ++ (if b then src else [])) k)
unfolding emit_if
emit_if-filled true m k src done e = emit-filled m k src done e
emit_if-filled false m k src done e = rw (zero-add, append-nil)

-- What both layouts suppose: DataSize counts the data, and the body is shorter than 4 GiB.
pub record FitsBody (n : Needle) : Type 0 where
  pub counted : n.data_size ≡ length n.payload
  pub small :
      4
        + length n.payload
        + 1
        + (1 + length n.name)
        + (1 + length n.mime)
        + (2 + length n.pairs)
        + 5
        + 2
      < u32

abbrev opt : Bool → ℕ → ℕ
opt b k = if b then k else 0

-- The room for the parts behind the flags byte, one summand for each write.
abbrev tail_room : Needle → ℕ
tail_room n =
    opt (has_name n) 1
    + (opt (has_name n) (length n.name)
        + (opt (has_mime n) 1
            + (opt (has_mime n) (length n.mime)
                + (opt (has_pairs n) 2
                    + (opt (has_pairs n) (length n.pairs)
                        + (opt (has_last_modified n) 5 + (opt (has_ttl n) 2 + 0)))))))

split_opt : (b : Bool) (m k : ℕ) → opt b (m + k) ≡ opt b m + opt b k
split_opt b m k = ground arith

opt_le : (b : Bool) (k : ℕ) → opt b k ≤ k
opt_le b k = ground arith

alloc_size-eq : (n : Needle) → FitsBody n → alloc_size n ≡ 4 + (n.data_size + (1 + tail_room n))
unfolding alloc_size
alloc_size-eq n h =
    mod-eq_of_lt (
      omega (
        arith,
        opt_le (has_name n) (1 + length n.name),
        opt_le (has_mime n) (1 + length n.mime),
        opt_le (has_pairs n) (2 + length n.pairs),
        opt_le (has_last_modified n) 5,
        opt_le (has_ttl n) 2,
      ))
    ∙ omega (
      arith,
      split_opt (has_name n) 1 (length n.name),
      split_opt (has_mime n) 1 (length n.mime),
      split_opt (has_pairs n) 2 (length n.pairs),
    )

join_if {ℓ} :
    {A : Type ℓ} (b : Bool) (xs ys : List A)
    → (if b then xs else []) ++ (if b then ys else []) ≡ (if b then xs ++ ys else [])
join_if true xs ys = refl
join_if false xs ys = refl

join_head {ℓ} :
    {A : Type ℓ} (b : Bool) (x : A) (xs zs : List A)
    → (if b then x ∷ [] else []) ++ ((if b then xs else []) ++ zs)
      ≡ (if b then x ∷ xs else []) ++ zs
join_head true x xs zs = refl
join_head false x xs zs = refl

-- When DataSize counts the data and the body is below 4 GiB, buildBodyBytes does not panic, and the
-- buffer that it fills holds the bytes that bodyBytes appends.
pub build_body_bytes-body_bytes :
    (n : Needle) → FitsBody n → build_body_bytes n ≡ some (body_bytes n)
unfolding build_body_bytes body_bytes
build_body_bytes-body_bytes n h =
    rw
      (
        alloc_size-eq n h,
        emit-filled 4 (n.data_size + (1 + tail_room n)) (put_be 4 n.data_size) []
            (length-put_be 4 _),
        emit-filled n.data_size (1 + tail_room n) n.payload (put_be 4 n.data_size) (sym h.counted),
        emit-filled 1 (tail_room n) (n.flags ∷ []) _ refl,
        emit_if-filled (has_name n) 1 _ (length n.name % u8 ∷ []) _ refl,
        emit_if-filled (has_name n) (length n.name) _ n.name _ refl,
        emit_if-filled (has_mime n) 1 _ (length n.mime % u8 ∷ []) _ refl,
        emit_if-filled (has_mime n) (length n.mime) _ n.mime _ refl,
        emit_if-filled (has_pairs n) 2 _ (put_be 2 (length n.pairs % u16)) _ (length-put_be 2 _),
        emit_if-filled (has_pairs n) (length n.pairs) _ n.pairs _ refl,
        emit_if-filled (has_last_modified n) 5 _ (write_uint40 n.last_modified) _ refl,
        emit_if-filled (has_ttl n) 2 0 (ttl_bytes n.ttl) _ refl,
      )
      (ap some (simp (append_assoc, append-nil, ← join_if, join_head)))
