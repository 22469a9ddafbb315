-- ===== src/Lock/Tests.antt =====
-- goblob/filer/lock_manager.go on concrete locks.
use go_blob.Base.{ℕ, ◌≡◌, refl, arith, true, Option, none, some, List, [], ◌∷◌}
use go_blob.Bytes.{bytes_equal}
use go_blob.Lock.{
  LockEntry, Codec, Kv, Store, acquired, lock_key, lock_access, lock_state, acquire, try_found,
  try_lock, unlock, is_locked, locked_found, LockCall, try_call, unlock_call, lock_run,
}
use go_blob.Lock.Refuse.{AreStrangers, AreDenied}
use go_blob.Lock.Lease.{lease, acquired-exclusive}

-- A codec of the entries whose owner and token have one byte.
abbrev encode_short : List ℕ → ℕ → List ℕ → List ℕ
encode_short (a ∷ []) n (b ∷ []) = a ∷ n ∷ b ∷ []
encode_short owner n token = []

abbrev decode_short : List ℕ → Option LockEntry
decode_short (a ∷ n ∷ b ∷ []) =
    some (record { owner = a ∷ []; expire_at_ns = n; renew_token = b ∷ [] })
decode_short bytes = none

abbrev short_codec : Codec
short_codec = record {
  encode = λ e. encode_short e.owner e.expire_at_ns e.renew_token;
  decode = decode_short;
}

abbrev working : Store
working = record { get = true; put = true; delete = true }

abbrev empty_kv : Kv
empty_kv key = none

-- Another owner tries the lock and Unlock with another token, and uses another lock.
abbrev calls_of_others : List LockCall
calls_of_others =
    try_call working 120 (some (8 ∷ [])) (7 ∷ []) (2 ∷ []) 50 []
    ∷ unlock_call working (7 ∷ []) (4 ∷ [])
    ∷ try_call working 130 (some (8 ∷ [])) (6 ∷ []) (2 ∷ []) 50 []
    ∷ []

others_strange : AreStrangers (7 ∷ []) (lease 100 (1 ∷ []) 50 (9 ∷ [])) calls_of_others
others_strange = (
  (λ q. ((λ o. ground (arith, o)), (λ t. ground (arith, t)), refl)),
  ((λ q t. ground (arith, t)), ((λ q. ground (arith, q)), tt)),
)

abbrev after_first : Kv
after_first = (try_lock short_codec working 100 (some (9 ∷ [])) (7 ∷ []) (1 ∷ []) 50 [] empty_kv).0

acquired-exclusive_example :
    AreDenied (7 ∷ []) calls_of_others (lock_run short_codec calls_of_others after_first).1
    × (is_locked short_codec working 140
          (7 ∷ [])
          (lock_run short_codec calls_of_others after_first).0
        ≡ some (true, 1 ∷ []))
    × ((unlock short_codec working
          (7 ∷ [])
          (9 ∷ [])
          (lock_run short_codec calls_of_others after_first).0).1
        ≡ none)
    × ((unlock short_codec working
            (7 ∷ [])
            (9 ∷ [])
            (lock_run short_codec calls_of_others after_first).0).0
          (lock_key (7 ∷ []))
        ≡ none)
unfolding try_lock try_found acquire lock_state
acquired-exclusive_example =
    acquired-exclusive short_codec working 100 (some (9 ∷ [])) (7 ∷ []) (1 ∷ []) 50 [] empty_kv
      (9 ∷ []) calls_of_others working 140 refl refl others_strange refl refl refl

-- At the nanosecond at which a lock expires IsLocked still answers its owner and TryLock gives it
-- to another.
boundary_locked : is_locked short_codec working 150 (7 ∷ []) after_first ≡ some (true, 1 ∷ [])
unfolding is_locked locked_found try_lock try_found acquire lock_state lock_key bytes_equal
boundary_locked = refl

boundary_granted :
    (try_lock short_codec working 150 (some (8 ∷ [])) (7 ∷ []) (2 ∷ []) 50 [] after_first).1
    ≡ acquired (8 ∷ [])
unfolding try_lock try_found acquire lock_state lock_access lock_key bytes_equal
boundary_granted = refl
