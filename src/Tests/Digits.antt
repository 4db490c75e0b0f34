-- ===== src/Tests/Digits.antt =====
-- The digits of the largest `u128`.
use transactions.Amount.Termination.{to_base10000_ends}
use transactions.Amount.Numeric.{to_base10000}
use transactions.Prelude.{◌<◌, ◌≡◌, arith, All}

to_base10000_ends_example :
    (to_base10000 15 340_282_366_920_938_463_463_374_607_431_768_211_455
      ≡ to_base10000 10 340_282_366_920_938_463_463_374_607_431_768_211_455)
    × All (λ d. d < 10000) (to_base10000 10 340_282_366_920_938_463_463_374_607_431_768_211_455)
to_base10000_ends_example =
    to_base10000_ends 15 340_282_366_920_938_463_463_374_607_431_768_211_455 (omega arith)
      (omega arith) (omega arith)
