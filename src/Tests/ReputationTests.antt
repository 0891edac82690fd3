-- ===== src/Tests/ReputationTests.antt =====
-- The prefix limiter at concrete inputs.
use go_cluster.Prelude.{
  ltb, ℕ, ◌*◌, ◌≤◌, true, false, none, some, List, [], ◌∷◌, ◌≡◌, refl, Bytes, list_eq, nat_eq,
  arith, replicate,
}
use go_cluster.Prelude.Int.{pos, leb_ℤ}
use go_cluster.Prelude.Machine.{Instant}
use go_cluster.Prelude.Map.{is_some}
use go_cluster.Prelude.Text.{ascii, ◌=ᵇ◌, trim_space, trim_left, trim_right}
use go_cluster.Reputation.TtlCache.{TtlCache, new_ttl_cache, get_result, set_result}
use go_cluster.Reputation.TtlCache.Kept.{
  AllFit, CacheOp, gets, sets, call_all, new_ttl_cache-AllFit, get_result-set_result,
}
use go_cluster.Reputation.PrefixLimiter.{
  PrefixLimiter, new_prefix_limiter, fnv32a, allow, sweep, state_of, second,
}
use go_cluster.Reputation.PrefixLimiter.Sweep.{AllSwept, sweep-AllSwept}
use go_cluster.Reputation.PrefixLimiter.Rate.{IsModest}
use go_cluster.Reputation.PrefixLimiter.Bucket.{allowed_of, allowed_of-bucket}

abbrev limiter : PrefixLimiter
limiter = record {
  bucket = 2;
  refill_per_sec = 1;
  ttl = pos (10 * second);
  max_prefixes = 4;
  prefix_shards = replicate 16 [];
}

limiter-made : new_prefix_limiter (pos 2) (pos 1) (pos (10 * second)) (pos 4) ≡ some limiter
limiter-made = refl

abbrev login_calls : List (Bytes × Instant)
login_calls =
    (ascii "192.0.2", 5000000000)
    ∷ (ascii "192.0.2", 5000000001)
    ∷ (ascii " 192.0.2", 5000000002)
    ∷ (ascii "198.51.100", 5000000003)
    ∷ (ascii "192.0.2", 6500000000)
    ∷ []

three-allowed : allowed_of (ascii "192.0.2") login_calls limiter ≡ 3
unfolding allow fnv32a trim_space trim_left trim_right
three-allowed = refl

swept :
    state_of (ascii "192.0.2") (sweep 20000000000 (allow (ascii "192.0.2") 5000000000 limiter).0)
    ≡ none
unfolding allow sweep fnv32a trim_space trim_left trim_right
swept = refl

not_swept :
    is_some (
      state_of (ascii "192.0.2") (sweep 15000000000 (allow (ascii "192.0.2") 5000000000 limiter).0))
    ≡ true
unfolding allow sweep fnv32a trim_space trim_left trim_right
not_swept = refl

limiter-IsModest : IsModest limiter
limiter-IsModest = record {
  refills = omega arith;
  small_refill = omega arith;
  small_bucket = omega arith;
  keeps_idle = omega arith;
}

allowed_of-bucket_example : allowed_of (ascii "192.0.2") login_calls limiter ≤ 3
unfolding fnv32a
allowed_of-bucket_example =
    allowed_of-bucket (ascii "192.0.2") login_calls 5000000000 6500000000 limiter refl
      limiter-IsModest (omega arith) refl
      (omega arith, (omega arith, (omega arith, (omega arith, (omega arith, omega arith)))))
      (omega arith)

abbrev after_call : PrefixLimiter
after_call = (allow (ascii "192.0.2") 5000000000 limiter).0

has_ttl : leb_ℤ after_call.ttl (pos 0) ≡ false
unfolding allow trim_space trim_left trim_right
has_ttl = refl

has_limit : ltb 0 after_call.max_prefixes ≡ true
unfolding allow trim_space trim_left trim_right
has_limit = refl

sweep-AllSwept_example :
    AllSwept after_call 15000000000 after_call.prefix_shards
      (sweep 15000000000 after_call).prefix_shards
sweep-AllSwept_example = sweep-AllSwept 15000000000 after_call has_ttl has_limit

abbrev results : TtlCache ℕ
results = new_ttl_cache (pos 2) (pos 100) (pos 10) (pos 1)

abbrev address : Bytes
address = ascii "192.0.2.1"

filled-address : (trim_space address =ᵇ []) ≡ false
unfolding trim_space trim_left trim_right
filled-address = refl

get_result-set_result_example :
    (get_result address 150 (set_result address 7 50 false results)).1 ≡ some (7, false)
unfolding fnv32a
get_result-set_result_example =
    get_result-set_result address 7 50 150 false results filled-address (omega arith) (omega arith)
      refl

gone : (get_result address 61 (set_result address 7 50 true results)).1 ≡ none
unfolding get_result set_result fnv32a trim_space trim_left trim_right
gone = refl

abbrev lookups : List (CacheOp ℕ)
lookups = sets address 7 50 true ∷ sets (ascii "198.51.100.7") 8 51 false ∷ gets address 52 ∷ []

new_ttl_cache-AllFit_example : AllFit 1 (call_all lookups results).cache_shards
new_ttl_cache-AllFit_example = new_ttl_cache-AllFit lookups (pos 2) (pos 1) (pos 100) (pos 10)
