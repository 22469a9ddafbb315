-- ===== src/Lock/Lease.antt =====
-- goblob/filer/lock_manager.go: a lock is held by one owner until it expires.
use go_blob.Base.{
  ℕ, ◌+◌, ◌%◌, ◌≡◌, ◌≢◌, ◌∙◌, refl, sym, ap, Bool, true, false, Option, none, some, List, [], ◌∷◌,
  arith, subst, if◌then◌else◌, u64, Bool-cases, inl, inr, ◌⊎◌,
}
use go_blob.Bytes.{bytes_equal}
use go_blob.Bytes.Laws.{bytes_equal_iff, bytes_equal_self}
use go_blob.Lock.{
  bad_entry, kv_put_failed, LockEntry, Codec, Kv, kv_set, Store, LockError, LockResult, acquired,
  held_by, failed, kv_get_failed, kv_delete_failed, not_lock_owner, Access, free, refused,
  signed_lt, lock_key, lock_access, lock_state, acquire, try_found, try_lock, unlock_found, unlock,
  is_locked, locked_found, LockCall, try_call, unlock_call, tried, unlocked, lock_step, lock_run,
}
use go_blob.Lock.Frame.{try_lock-frame, unlock-frame}
use go_blob.Lock.Refuse.{
  IsHeld, call_name, IsStranger, AreStrangers, IsDenied, AreDenied, foreign_access, held_state,
  refused_try, refusal-denied, foreign_unlock, IsHeld-frame, other_key,
}

-- A call for the lock itself.
same_try :
    (codec : Codec) (name : List ℕ) (e : LockEntry) (kv : Kv) (store : Store) (now : ℕ)
    (token : Option (List ℕ)) (owner : List ℕ) (expire_ns : ℕ) (renew n : List ℕ)
    → n ≡ name
    → IsHeld codec name e kv
    → owner ≢ e.owner
    → renew ≢ e.renew_token
    → signed_lt now e.expire_at_ns ≡ true
    → try_lock codec store now token n owner expire_ns renew kv
      ≡ (kv, if store.get then held_by e.owner else failed kv_get_failed)
same_try codec name e kv store now token owner expire_ns renew n q h o t valid =
    subst
      (λ m.
        try_lock codec store now token m owner expire_ns renew kv
        ≡ (kv, if store.get then held_by e.owner else failed kv_get_failed))
      (sym q)
      (refused_try codec kv store now token name owner expire_ns renew (held_by e.owner)
        (held_state codec name e kv now owner renew h ∙ foreign_access now owner renew e o t valid))

same_unlock :
    (codec : Codec) (name : List ℕ) (e : LockEntry) (kv : Kv) (store : Store) (renew n : List ℕ)
    → n ≡ name
    → IsHeld codec name e kv
    → renew ≢ e.renew_token
    → unlock codec store n renew kv
      ≡ (kv, some (if store.get then not_lock_owner else kv_get_failed))
same_unlock codec name e kv store renew n q h t =
    subst
      (λ m.
        unlock codec store m renew kv
        ≡ (kv, some (if store.get then not_lock_owner else kv_get_failed)))
      (sym q) (foreign_unlock codec name e kv store renew h t)

step_other :
    (codec : Codec) (name : List ℕ) (e : LockEntry) (c : LockCall) (kv : Kv)
    → call_name c ≢ name
    → IsHeld codec name e kv
    → IsHeld codec name e (lock_step codec c kv).0
unfolding lock_step
step_other codec name e (try_call store now token n owner expire_ns renew) kv ne h =
    IsHeld-frame codec name e kv _
      (try_lock-frame codec store now token n owner expire_ns renew kv _ (other_key n name ne)) h
step_other codec name e (unlock_call store n renew) kv ne h =
    IsHeld-frame codec name e kv _ (unlock-frame codec store n renew kv _ (other_key n name ne)) h

step_same :
    (codec : Codec) (name : List ℕ) (e : LockEntry) (c : LockCall) (kv : Kv)
    → call_name c ≡ name
    → IsStranger e c
    → IsHeld codec name e kv
    → IsHeld codec name e (lock_step codec c kv).0 × IsDenied (lock_step codec c kv).1
unfolding lock_step
step_same codec name e (try_call store now token n owner expire_ns renew) kv same (o, t, valid) h =
    let out = same_try codec name e kv store now token owner expire_ns renew n same h o t valid in
    (
      IsHeld-frame codec name e kv _ (ap (λ r. r.0 (lock_key name)) out) h,
      subst (λ r. IsDenied (tried r)) (sym (ap (λ r. r.1) out)) (refusal-denied store.get e.owner),
    )
step_same codec name e (unlock_call store n renew) kv same t h =
    let out = same_unlock codec name e kv store renew n same h t in
    (
      IsHeld-frame codec name e kv _ (ap (λ r. r.0 (lock_key name)) out) h,
      subst (λ r. IsDenied (unlocked r)) (sym (ap (λ r. r.1) out)) (λ q. ground (arith, q)),
    )

name_cases : (n name : List ℕ) → (n ≡ name) ⊎ (n ≢ name)
name_cases n name = elim (Bool-cases (bytes_equal n name)) [
  | inl same ↦ inl ((bytes_equal_iff n name).0 same)
  | inr other ↦ inr (λ q. ground (arith, (bytes_equal_iff n name).1 q, other))
]

strangers_denied :
    (codec : Codec) (name : List ℕ) (e : LockEntry) (cs : List LockCall) (kv : Kv)
    → AreStrangers name e cs
    → IsHeld codec name e kv
    → IsHeld codec name e (lock_run codec cs kv).0 × AreDenied name cs (lock_run codec cs kv).1
unfolding lock_run
strangers_denied codec name e [] kv s h = (h, tt)
strangers_denied codec name e (c ∷ cs) kv (s, ss) h = elim (name_cases (call_name c) name) [
  | inl same ↦
      let (held, denied) = step_same codec name e c kv same (s same) h in
      let (held_after, denied_after) = strangers_denied codec name e cs _ ss held in
      (held_after, ((λ q. denied), denied_after))
  | inr other ↦
      let held = step_other codec name e c kv other h in
      let (held_after, denied_after) = strangers_denied codec name e cs _ ss held in
      (held_after, ((λ q. absurd (other q)), denied_after))
]

-- The entry that TryLock writes.
abbrev pub lease : ℕ → List ℕ → ℕ → List ℕ → LockEntry
lease now owner expire_ns token = record {
  owner = owner;
  expire_at_ns = (now + expire_ns) % u64;
  renew_token = token;
}

acquired-injective : (s t : List ℕ) → acquired s ≡ acquired t → s ≡ t
acquired-injective s t h = ground (arith, h)

put-lease :
    (codec : Codec) (put : Bool) (now : ℕ) (token name owner : List ℕ) (expire_ns : ℕ) (kv : Kv)
    (t : List ℕ) (result : Kv × LockResult)
    → result ≡ (
        if put
        then (
          kv_set (lock_key name) (some (codec.encode (lease now owner expire_ns token))) kv,
          acquired token,
        )
        else (kv, failed kv_put_failed))
    → result.1 ≡ acquired t
    → result.0 (lock_key name) ≡ some (codec.encode (lease now owner expire_ns t))
put-lease codec true now token name owner expire_ns kv t result eq h =
    let same = acquired-injective token t (sym (ap (λ r. r.1) eq) ∙ h) in
    ap (λ r. r.0 (lock_key name)) eq ∙ rw (bytes_equal_self (lock_key name), same)
put-lease codec false now token name owner expire_ns kv t result eq h =
    let none_acquired : failed kv_put_failed ≡ acquired t = sym (ap (λ r. r.1) eq) ∙ h in
    ground (arith, none_acquired)

acquire-lease :
    (codec : Codec) (store : Store) (now : ℕ) (token : Option (List ℕ)) (name owner : List ℕ)
    (expire_ns : ℕ) (kv : Kv) (t : List ℕ)
    → (acquire codec store now token name owner expire_ns kv).1 ≡ acquired t
    → (acquire codec store now token name owner expire_ns kv).0 (lock_key name)
      ≡ some (codec.encode (lease now owner expire_ns t))
unfolding acquire
acquire-lease codec store now none name owner expire_ns kv t h = ground (arith, h)
acquire-lease codec store now (some token) name owner expire_ns kv t h =
    put-lease codec store.put now token name owner expire_ns kv t _ refl h

found-lease :
    (codec : Codec) (store : Store) (now : ℕ) (token : Option (List ℕ)) (name owner : List ℕ)
    (expire_ns : ℕ) (access : Access) (kv : Kv) (t : List ℕ)
    → access ≢ refused (acquired t)
    → (try_found codec store now token name owner expire_ns access kv).1 ≡ acquired t
    → (try_found codec store now token name owner expire_ns access kv).0 (lock_key name)
      ≡ some (codec.encode (lease now owner expire_ns t))
unfolding try_found
found-lease codec store now token name owner expire_ns free kv t refusal h =
    acquire-lease codec store now token name owner expire_ns kv t h
found-lease codec store now token name owner expire_ns (refused r) kv t refusal h =
    absurd (refusal (ap refused h))

access-refuses :
    (now : ℕ) (owner renew : List ℕ) (e : LockEntry) (t : List ℕ)
    → lock_access now owner renew e ≢ refused (acquired t)
unfolding lock_access
access-refuses now owner renew e t = λ q. ground (arith, q)

state-refuses :
    (codec : Codec) (now : ℕ) (owner renew : List ℕ) (found : Option (List ℕ)) (t : List ℕ)
    → lock_state codec now owner renew found ≢ refused (acquired t)
unfolding lock_state
state-refuses codec now owner renew none t = λ q. ground (arith, q)
state-refuses codec now owner renew (some bytes) t =
    elim (codec.decode bytes)
      as (λ d.
        elim d as (λ _. Access) [
          | none ↦ refused (failed bad_entry)
          | some e ↦ lock_access now owner renew e
        ]
        ≢ refused (acquired t)) [
          | none ↦ λ q. ground (arith, q)
          | some e ↦ access-refuses now owner renew e t
        ]

try_lock-lease :
    (codec : Codec) (store : Store) (now : ℕ) (token : Option (List ℕ)) (name owner : List ℕ)
    (expire_ns : ℕ) (renew : List ℕ) (kv : Kv) (t : List ℕ)
    → (try_lock codec store now token name owner expire_ns renew kv).1 ≡ acquired t
    → (try_lock codec store now token name owner expire_ns renew kv).0 (lock_key name)
      ≡ some (codec.encode (lease now owner expire_ns t))
unfolding try_lock
try_lock-lease codec store now token name owner expire_ns renew kv t h =
    let found =
      found-lease codec store now token name owner expire_ns
        (lock_state codec now owner renew (kv (lock_key name))) kv t
        (state-refuses codec now owner renew (kv (lock_key name)) t) in
    ground (arith, found)

if_true : {A : Type 0} (b : Bool) (x y : A) → b ≡ true → (if b then x else y) ≡ x
if_true true x y h = refl
if_true false x y h = ground (arith, h)

locked_decoded :
    (codec : Codec) (e : LockEntry) (now : ℕ) (bytes : List ℕ)
    → codec.decode bytes ≡ some e
    → signed_lt e.expire_at_ns now ≡ false
    → locked_found codec now (some bytes) ≡ some (true, e.owner)
unfolding locked_found
locked_decoded codec e now bytes h valid = rw (locked_found, h, valid)

held-locked :
    (codec : Codec) (store : Store) (name : List ℕ) (e : LockEntry) (kv : Kv) (now : ℕ)
    → store.get ≡ true
    → signed_lt e.expire_at_ns now ≡ false
    → IsHeld codec name e kv
    → is_locked codec store now name kv ≡ some (true, e.owner)
unfolding is_locked
held-locked codec store name e kv now get valid h =
    if_true store.get _ _ get
    ∙ ap (locked_found codec now) h.stored
    ∙ locked_decoded codec e now h.bytes h.decoded valid

abbrev pub unlock_done : List ℕ → Kv → Kv × Option LockError
unlock_done key kv = (kv_set key none kv, none)

deleted :
    (codec : Codec) (store : Store) (name : List ℕ) (e : LockEntry) (kv : Kv) (bytes : List ℕ)
    → codec.decode bytes ≡ some e
    → unlock_found codec store name e.renew_token (some bytes) kv
      ≡ (if store.delete then unlock_done (lock_key name) kv else (kv, some kv_delete_failed))
unfolding unlock_found
deleted codec store name e kv bytes h = rw (unlock_found, h, bytes_equal_self e.renew_token)

held-unlock :
    (codec : Codec) (store : Store) (name : List ℕ) (e : LockEntry) (kv : Kv)
    → store.get ≡ true
    → store.delete ≡ true
    → IsHeld codec name e kv
    → unlock codec store name e.renew_token kv ≡ (kv_set (lock_key name) none kv, none)
unfolding unlock
held-unlock codec store name e kv get delete h =
    if_true store.get _ _ get
    ∙ ap (λ found. unlock_found codec store name e.renew_token found kv) h.stored
    ∙ deleted codec store name e kv h.bytes h.decoded
    ∙ if_true store.delete _ _ delete

cleared : (kv : Kv) (name : List ℕ) → kv_set (lock_key name) none kv (lock_key name) ≡ none
cleared kv name = rw (bytes_equal_self (lock_key name))

-- A TryLock that acquires a lock gives it to its caller: provided the entry that it wrote decodes
-- to itself, after any calls of strangers for that lock and any calls for other locks, every call
-- of a stranger for it was answered by no success. Until the entry expires IsLocked then answers
-- its owner, if the store answers; and Unlock with the token that TryLock answered succeeds, if the
-- store does, and leaves no entry for the lock.
pub acquired-exclusive :
    (codec : Codec) (store : Store) (now : ℕ) (token : Option (List ℕ)) (name owner : List ℕ)
    (expire_ns : ℕ) (renew : List ℕ) (kv : Kv) (t : List ℕ) (cs : List LockCall) (later : Store)
    (time : ℕ)
    → (try_lock codec store now token name owner expire_ns renew kv).1 ≡ acquired t
    → codec.decode (codec.encode (lease now owner expire_ns t)) ≡ some (lease now owner expire_ns t)
    → AreStrangers name (lease now owner expire_ns t) cs
    → later.get ≡ true
    → later.delete ≡ true
    → signed_lt ((now + expire_ns) % u64) time ≡ false
    → AreDenied name cs
        (lock_run codec cs (try_lock codec store now token name owner expire_ns renew kv).0).1
      × (is_locked codec later time name
            (lock_run codec cs (try_lock codec store now token name owner expire_ns renew kv).0).0
          ≡ some (true, owner))
      × ((unlock codec later name t
            (lock_run codec cs
              (try_lock codec store now token name owner expire_ns renew kv).0).0).1
          ≡ none)
      × ((unlock codec later name t
              (lock_run codec cs
                (try_lock codec store now token name owner expire_ns renew kv).0).0).0
            (lock_key name)
          ≡ none)
acquired-exclusive codec store now token name owner expire_ns renew kv t cs later time h sound
      strangers get delete valid =
    let held : IsHeld codec name (lease now owner expire_ns t)
        (try_lock codec store now token name owner expire_ns renew kv).0 =
      record {
        bytes = codec.encode (lease now owner expire_ns t);
        stored = try_lock-lease codec store now token name owner expire_ns renew kv t h;
        decoded = sound;
      } in
    let (after, denied) =
      strangers_denied codec name (lease now owner expire_ns t) cs _ strangers held in
    (
      denied,
      held-locked codec later name (lease now owner expire_ns t) _ time get valid after,
      ap (λ r. r.1) (held-unlock codec later name (lease now owner expire_ns t) _ get delete after),
      ap (λ r. r.0 (lock_key name))
            (held-unlock codec later name (lease now owner expire_ns t) _ get delete after)
          ∙ cleared
              (lock_run codec cs (try_lock codec store now token name owner expire_ns renew kv).0).0
              name,
    )
