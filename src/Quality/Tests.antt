-- ===== src/Quality/Tests.antt =====
-- Runs of `QualityOfService`.
use mona_server.Base.{refl, [], ◌∷◌, ◌++◌, arith}
use mona_server.Quality.{Quality, quality, add}
use mona_server.Quality.Window.{IsValid, Rates, recent, add-Rates}

abbrev busy : Quality
busy = record quality {
  samples =
      record { time = 1000; success = 3; lost = 1; size = 100 }
      ∷ record { time = 5000; success = 2; lost = 2; size = 50 }
      ∷ [];
  total = 150;
  num = 3;
  den = 8;
}

busy-IsValid : IsValid busy
busy-IsValid = record {
  samples_fit =
      ((omega arith, omega arith, omega arith), ((omega arith, omega arith, omega arith), tt));
  num_is = refl;
  den_is = refl;
  total_is = refl;
}

add-Rates_example :
    Rates
      (recent 7000 busy.samples ++ record { time = 7000; success = 1; lost = 1; size = 10 } ∷ [])
      (add busy 7000 40 10 1 1)
add-Rates_example =
    add-Rates busy 7000 40 10 1 1 busy-IsValid (omega arith) (omega arith) (omega arith)
      (omega arith)
