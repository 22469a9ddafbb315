-- ===== src/Lock.antt =====
-- goblob/filer/lock_manager.go: the named locks that expire, over the key-value store of the filer.
-- Times are the 64-bit patterns of int64 nanoseconds. The methods hold one mutex throughout.
pub mod Frame
pub mod Refuse
pub mod Lease
mod Tests
use go_blob.Base.{
  ℕ, ◌+◌, ◌%◌, Bool, true, false, not, ◌&&◌, Option, none, some, List, [], ◌∷◌, ◌++◌, ltb,
  if◌then◌else◌, u64,
}
use go_blob.Bytes.{bytes_equal}

-- a < b of int64.
abbrev pub signed_lt : ℕ → ℕ → Bool
signed_lt a b = ltb ((a + 0x8000000000000000) % u64) ((b + 0x8000000000000000) % u64)

pub record LockEntry : Type 0 where
  pub owner : List ℕ
  pub expire_at_ns : ℕ
  pub renew_token : List ℕ

-- encoding/json on entries, which is outside the program; `none` is an error of Unmarshal.
pub record Codec : Type 0 where
  pub encode : LockEntry → List ℕ
  pub decode : List ℕ → Option LockEntry

-- What KvGet finds for a key; `none` is ErrNotFound, or nil data, which the three methods take
-- alike.
abbrev pub Kv : Type 0
Kv = List ℕ → Option (List ℕ)

abbrev pub kv_set : List ℕ → Option (List ℕ) → Kv → Kv
kv_set key value kv j = if bytes_equal key j then value else kv j

-- Whether the store answers the calls of one method.
pub record Store : Type 0 where
  pub get : Bool
  pub put : Bool
  pub delete : Bool

pub data LockError : Type 0 where
  not_lock_owner lock_not_found kv_get_failed kv_put_failed kv_delete_failed : LockError
  bad_entry no_token : LockError

-- LockResult and the error of TryLock.
pub data LockResult : Type 0 where
  acquired : List ℕ → LockResult
  held_by : List ℕ → LockResult
  failed : LockError → LockResult

-- lockKey: "__lock__:" and the name.
unfoldable pub lock_key : List ℕ → List ℕ
lock_key name = 95 ∷ 95 ∷ 108 ∷ 111 ∷ 99 ∷ 107 ∷ 95 ∷ 95 ∷ 58 ∷ name

pub data Access : Type 0 where
  free : Access
  refused : LockResult → Access

-- The tests of TryLock on an entry.
unfoldable pub lock_access : ℕ → List ℕ → List ℕ → LockEntry → Access
lock_access now owner renew_token e =
    if signed_lt now e.expire_at_ns
    then if not (bytes_equal e.owner owner) && not (bytes_equal e.renew_token renew_token)
      then refused (held_by e.owner)
      else if not (bytes_equal renew_token []) && not (bytes_equal e.renew_token renew_token)
      then refused (failed not_lock_owner)
      else free
    else free

module _ (codec : Codec) where
  -- What TryLock makes of the answer of KvGet.
  unfoldable pub lock_state : ℕ → List ℕ → List ℕ → Option (List ℕ) → Access
  unfolding lock_access
  lock_state now owner renew_token none = free
  lock_state now owner renew_token (some bytes) = elim (codec.decode bytes) [
    | none ↦ refused (failed bad_entry)
    | some e ↦ lock_access now owner renew_token e
  ]

  -- The second half of TryLock; `token` is the answer of generateToken.
  unfoldable pub acquire : Store → ℕ → Option (List ℕ) → List ℕ → List ℕ → ℕ → Kv → Kv × LockResult
  acquire store now none name owner expire_ns kv = (kv, failed no_token)
  acquire store now (some token) name owner expire_ns kv =
      let entry : LockEntry = record {
        owner = owner;
        expire_at_ns = (now + expire_ns) % u64;
        renew_token = token;
      } in
      if store.put
      then (kv_set (lock_key name) (some (codec.encode entry)) kv, acquired token)
      else (kv, failed kv_put_failed)

  -- TryLock at the time `now`, behind KvGet.
  unfoldable pub try_found :
      Store → ℕ → Option (List ℕ) → List ℕ → List ℕ → ℕ → Access → Kv → Kv × LockResult
  try_found store now token name owner expire_ns free kv =
      acquire store now token name owner expire_ns kv
  try_found store now token name owner expire_ns (refused r) kv = (kv, r)

  unfoldable pub try_lock :
      Store → ℕ → Option (List ℕ) → List ℕ → List ℕ → ℕ → List ℕ → Kv → Kv × LockResult
  unfolding lock_state acquire try_found
  try_lock store now token name owner expire_ns renew_token kv =
      if store.get
      then try_found store now token name owner expire_ns
          (lock_state now owner renew_token (kv (lock_key name))) kv
      else (kv, failed kv_get_failed)

  -- Unlock, behind KvGet; `none` is success.
  unfoldable pub unlock_found :
      Store → List ℕ → List ℕ → Option (List ℕ) → Kv → Kv × Option LockError
  unlock_found store name renew_token none kv = (kv, some lock_not_found)
  unlock_found store name renew_token (some bytes) kv = elim (codec.decode bytes) [
    | none ↦ (kv, some bad_entry)
    | some e ↦
        if not (bytes_equal e.renew_token renew_token)
        then (kv, some not_lock_owner)
        else if store.delete
        then (kv_set (lock_key name) none kv, none)
        else (kv, some kv_delete_failed)
  ]

  unfoldable pub unlock : Store → List ℕ → List ℕ → Kv → Kv × Option LockError
  unfolding unlock_found
  unlock store name renew_token kv =
      if store.get
      then unlock_found store name renew_token (kv (lock_key name)) kv
      else (kv, some kv_get_failed)

  -- IsLocked, behind KvGet: whether the lock is held, and the owner.
  unfoldable pub locked_found : ℕ → Option (List ℕ) → Option (Bool × List ℕ)
  locked_found now none = some (false, [])
  locked_found now (some bytes) = elim (codec.decode bytes) [
    | none ↦ none
    | some e ↦ if signed_lt e.expire_at_ns now then some (false, []) else some (true, e.owner)
  ]

  -- IsLocked; `none` is its error.
  unfoldable pub is_locked : Store → ℕ → List ℕ → Kv → Option (Bool × List ℕ)
  unfolding locked_found
  is_locked store now name kv = if store.get then locked_found now (kv (lock_key name)) else none

-- The calls that change the locks, and their answers.
pub data LockCall : Type 0 where
  try_call : Store → ℕ → Option (List ℕ) → List ℕ → List ℕ → ℕ → List ℕ → LockCall
  unlock_call : Store → List ℕ → List ℕ → LockCall

pub data LockAnswer : Type 0 where
  tried : LockResult → LockAnswer
  unlocked : Option LockError → LockAnswer

unfoldable pub lock_step : Codec → LockCall → Kv → Kv × LockAnswer
unfolding try_lock unlock
lock_step codec (try_call store now token name owner expire_ns renew_token) kv =
    let (after, result) = try_lock codec store now token name owner expire_ns renew_token kv in
    (after, tried result)
lock_step codec (unlock_call store name renew_token) kv =
    let (after, result) = unlock codec store name renew_token kv in (after, unlocked result)

unfoldable pub lock_run : Codec → List LockCall → Kv → Kv × List LockAnswer
unfolding lock_step
lock_run codec [] kv = (kv, [])
lock_run codec (c ∷ cs) kv =
    let (next, answer) = lock_step codec c kv in
    let (after, answers) = lock_run codec cs next in (after, answer ∷ answers)
