-- ===== src/Lock/Refuse.antt =====
-- goblob/filer/lock_manager.go: what TryLock and Unlock do with a lock that is held.
use go_blob.Base.{
  ℕ, ◌≡◌, ◌≢◌, ◌∙◌, refl, sym, ap, Bool, true, false, Option, none, some, List, [], ◌∷◌, arith,
  if◌then◌else◌,
}
use go_blob.Bytes.{bytes_equal}
use go_blob.Bytes.Laws.{bytes_equal_ne}
use go_blob.Lock.{
  LockEntry, Codec, Kv, Store, LockError, LockResult, acquired, held_by, failed, kv_get_failed,
  not_lock_owner, refused, signed_lt, lock_key, lock_access, lock_state, try_found, try_lock,
  unlock_found, unlock, LockCall, try_call, unlock_call, LockAnswer, tried, unlocked,
}
use go_blob.Lock.Frame.{lock_key-ne}

-- The entry of a lock in the store.
pub record IsHeld (codec : Codec) (name : List ℕ) (e : LockEntry) (kv : Kv) : Type 0 where
  pub bytes : List ℕ
  pub stored : kv (lock_key name) ≡ some bytes
  pub decoded : codec.decode bytes ≡ some e

abbrev pub call_name : LockCall → List ℕ
call_name (try_call store now token n owner expire_ns renew_token) = n
call_name (unlock_call store n renew_token) = n

-- A call without the token of an entry, TryLock also from another owner and before the entry
-- expires.
abbrev pub IsStranger : LockEntry → LockCall → Type 0
IsStranger e (try_call store now token n owner expire_ns renew_token) =
    (owner ≢ e.owner) × (renew_token ≢ e.renew_token) × (signed_lt now e.expire_at_ns ≡ true)
IsStranger e (unlock_call store n renew_token) = renew_token ≢ e.renew_token

-- Every call for a lock is one of a stranger; the other locks may be used in any way.
abbrev pub AreStrangers : List ℕ → LockEntry → List LockCall → Type 0
AreStrangers name e [] = Unit
AreStrangers name e (c ∷ cs) = (call_name c ≡ name → IsStranger e c) × AreStrangers name e cs

-- The answer is no success.
abbrev pub IsDenied : LockAnswer → Type 0
IsDenied (tried result) = (token : List ℕ) → tried result ≢ tried (acquired token)
IsDenied (unlocked result) = unlocked result ≢ unlocked none

-- Each call for a lock has an answer, which is no success.
abbrev pub AreDenied : List ℕ → List LockCall → List LockAnswer → Type 0
AreDenied name [] [] = Unit
AreDenied name [] (answer ∷ answers) = ⊥
AreDenied name (c ∷ cs) [] = ⊥
AreDenied name (c ∷ cs) (answer ∷ answers) =
    (call_name c ≡ name → IsDenied answer) × AreDenied name cs answers

pub foreign_access :
    (now : ℕ) (owner renew : List ℕ) (e : LockEntry)
    → owner ≢ e.owner
    → renew ≢ e.renew_token
    → signed_lt now e.expire_at_ns ≡ true
    → lock_access now owner renew e ≡ refused (held_by e.owner)
unfolding lock_access
foreign_access now owner renew e o t valid = rw (
  valid,
  bytes_equal_ne e.owner owner (λ q. o (sym q)),
  bytes_equal_ne e.renew_token renew (λ q. t (sym q)),
)

pub decoded_state :
    (codec : Codec) (bytes : List ℕ) (e : LockEntry) (now : ℕ) (owner renew : List ℕ)
    → codec.decode bytes ≡ some e
    → lock_state codec now owner renew (some bytes) ≡ lock_access now owner renew e
unfolding lock_state
decoded_state codec bytes e now owner renew h = rw (lock_state, h)

pub held_state :
    (codec : Codec) (name : List ℕ) (e : LockEntry) (kv : Kv) (now : ℕ) (owner renew : List ℕ)
    (h : IsHeld codec name e kv)
    → lock_state codec now owner renew (kv (lock_key name)) ≡ lock_access now owner renew e
held_state codec name e kv now owner renew h =
    ap (lock_state codec now owner renew) h.stored
    ∙ decoded_state codec h.bytes e now owner renew h.decoded

pub if_pair :
    (get : Bool) (kv : Kv) (r q : LockResult)
    → ◌≡◌ {A = Kv × LockResult} (if get then (kv, r) else (kv, q)) (kv, if get then r else q)
if_pair true kv r q = refl
if_pair false kv r q = refl

-- TryLock behind a refusal.
pub refused_try :
    (codec : Codec) (kv : Kv) (store : Store) (now : ℕ) (token : Option (List ℕ))
    (name owner : List ℕ) (expire_ns : ℕ) (renew : List ℕ) (r : LockResult)
    → lock_state codec now owner renew (kv (lock_key name)) ≡ refused r
    → try_lock codec store now token name owner expire_ns renew kv
      ≡ (kv, if store.get then r else failed kv_get_failed)
unfolding try_lock try_found
refused_try codec kv store now token name owner expire_ns renew r h =
    rw (h, if_pair store.get kv r (failed kv_get_failed))

pub refusal-denied :
    (get : Bool) (owner token : List ℕ)
    → tried (if get then held_by owner else failed kv_get_failed) ≢ tried (acquired token)
refusal-denied true owner token = λ q. ground (arith, q)
refusal-denied false owner token = λ q. ground (arith, q)

pub unlock_decoded :
    (codec : Codec) (store : Store) (name renew : List ℕ) (bytes : List ℕ) (e : LockEntry) (kv : Kv)
    → codec.decode bytes ≡ some e
    → bytes_equal e.renew_token renew ≡ false
    → unlock_found codec store name renew (some bytes) kv ≡ (kv, some not_lock_owner)
unfolding unlock_found
unlock_decoded codec store name renew bytes e kv h t = rw (unlock_found, h, t)

-- Unlock with another token leaves the store and fails.
pub unlock_failed :
    (get : Bool) (kv : Kv) (found : Kv × Option LockError)
    → found ≡ (kv, some not_lock_owner)
    → ◌≡◌ {A = Kv × Option LockError}
        (if get then found else (kv, some kv_get_failed))
        (kv, some (if get then not_lock_owner else kv_get_failed))
unlock_failed true kv found h = h
unlock_failed false kv found h = refl

pub foreign_unlock :
    (codec : Codec) (name : List ℕ) (e : LockEntry) (kv : Kv) (store : Store) (renew : List ℕ)
    → IsHeld codec name e kv
    → renew ≢ e.renew_token
    → unlock codec store name renew kv
      ≡ (kv, some (if store.get then not_lock_owner else kv_get_failed))
unfolding unlock
foreign_unlock codec name e kv store renew h t = unlock_failed store.get kv _ (
    ap (λ found. unlock_found codec store name renew found kv) h.stored
    ∙ unlock_decoded codec store name renew h.bytes e kv h.decoded
        (bytes_equal_ne e.renew_token renew (λ q. t (sym q))))

pub IsHeld-frame :
    (codec : Codec) (name : List ℕ) (e : LockEntry) (before after : Kv)
    → after (lock_key name) ≡ before (lock_key name)
    → IsHeld codec name e before
    → IsHeld codec name e after
IsHeld-frame codec name e before after same h = record {
  bytes = h.bytes;
  stored = same ∙ h.stored;
  decoded = h.decoded;
}

pub other_key : (n name : List ℕ) → n ≢ name → bytes_equal (lock_key n) (lock_key name) ≡ false
other_key n name ne = lock_key-ne n name ∙ bytes_equal_ne n name ne
