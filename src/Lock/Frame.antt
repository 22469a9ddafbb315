-- ===== src/Lock/Frame.antt =====
-- goblob/filer/lock_manager.go: a call for one lock leaves the others alone.
use go_blob.Base.{ℕ, ◌≡◌, refl, false, Option, none, some, List, arith}
use go_blob.Bytes.{bytes_equal}
use go_blob.Lock.{
  Codec, Kv, Store, Access, free, refused, lock_key, lock_state, acquire, try_found, try_lock,
  unlock_found, unlock,
}

pub lock_key-ne : (n name : List ℕ) → bytes_equal (lock_key n) (lock_key name) ≡ bytes_equal n name
unfolding lock_key bytes_equal
lock_key-ne n name = refl

-- A call for another key leaves a key alone.
pub acquire-frame :
    (codec : Codec) (store : Store) (now : ℕ) (token : Option (List ℕ)) (n owner : List ℕ)
    (expire_ns : ℕ) (kv : Kv) (key : List ℕ)
    → bytes_equal (lock_key n) key ≡ false
    → (acquire codec store now token n owner expire_ns kv).0 key ≡ kv key
unfolding acquire
acquire-frame codec store now none n owner expire_ns kv key h = refl
acquire-frame codec store now (some token) n owner expire_ns kv key h = ground arith

pub try_found-frame :
    (codec : Codec) (store : Store) (now : ℕ) (token : Option (List ℕ)) (n owner : List ℕ)
    (expire_ns : ℕ) (access : Access) (kv : Kv) (key : List ℕ)
    → bytes_equal (lock_key n) key ≡ false
    → (try_found codec store now token n owner expire_ns access kv).0 key ≡ kv key
unfolding try_found
try_found-frame codec store now token n owner expire_ns free kv key h =
    acquire-frame codec store now token n owner expire_ns kv key h
try_found-frame codec store now token n owner expire_ns (refused r) kv key h = refl

pub try_lock-frame :
    (codec : Codec) (store : Store) (now : ℕ) (token : Option (List ℕ)) (n owner : List ℕ)
    (expire_ns : ℕ) (renew : List ℕ) (kv : Kv) (key : List ℕ)
    → bytes_equal (lock_key n) key ≡ false
    → (try_lock codec store now token n owner expire_ns renew kv).0 key ≡ kv key
unfolding try_lock
try_lock-frame codec store now token n owner expire_ns renew kv key h =
    let found =
      try_found-frame codec store now token n owner expire_ns
        (lock_state codec now owner renew (kv (lock_key n))) kv key h in
    ground (arith, found)

pub unlock-frame :
    (codec : Codec) (store : Store) (n renew : List ℕ) (kv : Kv) (key : List ℕ)
    → bytes_equal (lock_key n) key ≡ false
    → (unlock codec store n renew kv).0 key ≡ kv key
unfolding unlock unlock_found
unlock-frame codec store n renew kv key h = ground arith
