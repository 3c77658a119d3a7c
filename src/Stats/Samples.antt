-- ===== src/Stats/Samples.antt =====
-- An order of the database and a standard deviation, for the tests.
use pricestream.Base.{Bool, refl, List, [], ◌∷◌, arith}
use pricestream.Base.Int.{pos, leb_ℤ}
use pricestream.Base.Result.{Result, ok, raise, statistics_error}
use pricestream.Decimal.{Decimal}
use pricestream.Clock.{instant}
use pricestream.Models.{ConsolidatedPrice}
use pricestream.Samples.Sorting.{sort, sort-perm, sort-IsSorted}
use pricestream.Stats.Window.{IsOrderBy, IsStdev}

abbrev pub by_time : ConsolidatedPrice → ConsolidatedPrice → Bool
by_time a b = leb_ℤ (instant a.timestamp) (instant b.timestamp)

pub sort-IsOrderBy : IsOrderBy (sort by_time)
sort-IsOrderBy = record {
  same_rows = sort-perm by_time;
  chronological =
      sort-IsSorted by_time _ (λ a b h. ground arith) (λ a b h. ground arith)
        (λ a b c h h'. omega (arith, h, h'));
}

abbrev pub stdev : List Decimal → Result Decimal
stdev ms = elim ms [ [] ↦ raise statistics_error | m ∷ rest ↦ ok (pos 0) ]

pub stdev-IsStdev : IsStdev stdev
stdev-IsStdev m ms = (pos 0, refl)
