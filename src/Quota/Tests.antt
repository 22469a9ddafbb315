-- ===== src/Quota/Tests.antt =====
-- goblob/quota/quota.go on concrete quotas.
use go_blob.Base.{ℕ, ◌≡◌, refl, true, false, not, ◌||◌, Option, none, some, List, [], ◌∷◌}
use go_blob.Bytes.{bytes_equal}
use go_blob.Lock.{signed_lt}
use go_blob.Quota.{
  QuotaStore, answers, fails, found_by, Quota, QuotaCodec, user, no_quota, has_room, get_quota,
  check_quota, QuotaCall, set_call, add_call, subtract_call, quota_run,
}
use go_blob.Quota.Usage.{IsCodec, usage, allows, no_entries, check_quota-quota_run}

abbrev decode_pair : List ℕ → Option Quota
decode_pair (most ∷ used ∷ []) = some (record { max_bytes = most; used_bytes = used })
decode_pair bytes = none

abbrev pair_codec : QuotaCodec
pair_codec = record {
  encode_quota = λ q. q.max_bytes ∷ q.used_bytes ∷ [];
  decode_quota = decode_pair;
}

pair_codec-IsCodec : IsCodec pair_codec
unfolding bytes_equal
pair_codec-IsCodec = record { sound = λ q. refl; not_empty = λ q. refl }

abbrev untrimmed : List ℕ → List ℕ
untrimmed id = id

abbrev working : QuotaStore
working = record { get = answers; put = true }

abbrev broken : QuotaStore
broken = record { get = answers; put = false }

-- A limit of 100 bytes; 80 bytes are added, 30 more are lost by the store, and 20 are taken off.
abbrev some_calls : List QuotaCall
some_calls =
    set_call working user (7 ∷ []) (record { max_bytes = 100; used_bytes = 0 })
    ∷ add_call working user (7 ∷ []) 80
    ∷ add_call broken user (7 ∷ []) 30
    ∷ subtract_call working user (7 ∷ []) 20
    ∷ []

check_quota-quota_run_example :
    (get_quota pair_codec untrimmed working user
        (7 ∷ [])
        (quota_run pair_codec untrimmed some_calls no_entries)
      ≡ found_by working.get (some (usage untrimmed some_calls user (7 ∷ []) no_quota)))
    × (check_quota pair_codec untrimmed working user
          (7 ∷ [])
          41
          (quota_run pair_codec untrimmed some_calls no_entries)
        ≡ (bytes_equal (untrimmed (7 ∷ [])) []
            || not (signed_lt 0 41)
            || allows
                (found_by working.get (some (usage untrimmed some_calls user (7 ∷ []) no_quota)))
                41))
check_quota-quota_run_example =
    check_quota-quota_run pair_codec untrimmed some_calls working user (7 ∷ []) 41
      pair_codec-IsCodec

usage_example :
    usage untrimmed some_calls user (7 ∷ []) no_quota ≡ record { max_bytes = 100; used_bytes = 60 }
unfolding bytes_equal
usage_example = refl

full_example : has_room (usage untrimmed some_calls user (7 ∷ []) no_quota) 41 ≡ false
unfolding bytes_equal
full_example = refl

-- A KvGet that fails with "not found" loses the limit.
lost_limit :
    usage untrimmed
      (add_call (record { get = fails true; put = true }) user (7 ∷ []) 5 ∷ [])
      user
      (7 ∷ [])
      (record { max_bytes = 100; used_bytes = 60 })
    ≡ record { max_bytes = 0; used_bytes = 5 }
unfolding bytes_equal
lost_limit = refl
