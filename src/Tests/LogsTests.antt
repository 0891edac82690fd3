-- ===== src/Tests/LogsTests.antt =====
-- The log dedupe at concrete inputs.
use go_cluster.Prelude.{ℕ, ◌+◌, ◌≡◌, refl, some, [], ◌∷◌, length, arith, list_eq, nat_eq}
use go_cluster.Prelude.Int.{pos}
use go_cluster.Prelude.Map.{lookup}
use go_cluster.Prelude.Text.{ascii, trim_space, to_lower, to_upper}
use go_cluster.Logs.DropDedupe.{
  DropLogDeduper, drop_log_dedupe_key, key_of_fields, fields, clean_log_token,
}
use go_cluster.Logs.DropDedupe.Account.{pending_of, process_times, process_times-account}
use go_cluster.Logs.DropDedupe.Table.{IsTable}

abbrev one_key : DropLogDeduper
one_key = record { window = pos 100; max_keys = 1; entries = [] }

one_key-IsTable : IsTable one_key
one_key-IsTable = record { once = tt; bounded = omega arith; room = omega arith }

process_times-account_example :
    (process_times (ascii "cty:unknown:DX:K1ABC") (5 ∷ 50 ∷ 60 ∷ 200 ∷ 201 ∷ []) one_key).1
      + pending_of (
          lookup
            (ascii "cty:unknown:DX:K1ABC")
            (process_times
              (ascii "cty:unknown:DX:K1ABC")
              (5 ∷ 50 ∷ 60 ∷ 200 ∷ 201 ∷ [])
              one_key).0.entries)
    ≡ pending_of (lookup (ascii "cty:unknown:DX:K1ABC") one_key.entries)
      + length {A = ℕ} (5 ∷ 50 ∷ 60 ∷ 200 ∷ 201 ∷ [])
process_times-account_example =
    process_times-account (ascii "cty:unknown:DX:K1ABC") (5 ∷ 50 ∷ 60 ∷ 200 ∷ 201 ∷ []) one_key
      (omega arith)

-- A tag in the call does not make another key.
key_of_tagged :
    drop_log_dedupe_key (ascii "CTY drop: unknown DX: [red]k1abc[-]")
    ≡ some (ascii "cty:unknown:DX:K1ABC")
unfolding drop_log_dedupe_key key_of_fields fields clean_log_token trim_space to_lower to_upper
key_of_tagged = refl
