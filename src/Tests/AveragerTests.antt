-- ===== src/Tests/AveragerTests.antt =====
-- The frequency averager at concrete inputs.
use go_cluster.Prelude.{
  ℕ, ◌+◌, ◌-◌, ◌/◌, leb, ◌≡◌, refl, List, [], ◌∷◌, if◌then◌else◌, list_eq, nat_eq, arith,
}
use go_cluster.Prelude.Int.{pos}
use go_cluster.Prelude.Text.{ascii}
use go_cluster.Spot.Averager.{Float64, new_frequency_averager, average, cleanup}
use go_cluster.Spot.Averager.History.{Use, reports, sweeps, use_all, average-history}

-- Whole tenths of a kHz stand for the floating point numbers.
instance abbrev tenths : Float64 ℕ
tenths = record {
  plus = λ a b. a + b;
  minus = λ a b. if leb b a then a - b else b - a;
  over = λ a b. a / b;
  magnitude = λ a. a;
  at_most = leb;
  of_int = λ n. n;
}

abbrev uses : List (Use ℕ)
uses =
    reports (ascii "K1ABC") 140000 5 5
    ∷ reports (ascii "K1ABC") 140252 5 50
    ∷ sweeps 55
    ∷ reports (ascii "W1AW") 70000 5 56
    ∷ reports (ascii "K1ABC") 140300 5 60
    ∷ []

-- One of the two recent reports corroborates.
average_corroborated :
    (average (ascii "K1ABC") 140250 100 (pos 90) 5 (use_all (pos 90) uses new_frequency_averager)).1
    ≡ ((140251, 2), 3)
unfolding average cleanup
average_corroborated = refl

average-history_example :
    (average (ascii "K1ABC") 140250 100 (pos 90) 5 (use_all (pos 90) uses new_frequency_averager)).1
    ≡ ((140251, 2), 3)
average-history_example =
    average-history (pos 90) uses (ascii "K1ABC") 140250 5 0 100 refl
      (omega arith, (omega arith, (omega arith, (omega arith, (omega arith, omega arith)))))
