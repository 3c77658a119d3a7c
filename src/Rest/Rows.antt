-- ===== src/Rest/Rows.antt =====
-- Which rows `get_queryset` of the list views keeps.
use pricestream.Base.{◌≡◌, ◌↔◌, List, Any}
use pricestream.Base.Text.{text}
use pricestream.Models.{Quote, OhlcBar, ArbitrageOpportunity, interval_value}
use pricestream.Rest.{
  Query, given, filter_by, related_symbol, quote_queryset, bar_queryset, opportunity_queryset,
}
use pricestream.Rest.Lookup.{Meets, Any-filter_by}
use pricestream.Rest.Serializers.{Row}

-- Of every table and for every query, `get_queryset` of the list views keeps, before the framework's
-- own filters and pages, exactly the rows whose instrument has the symbol that the query names and, for
-- bars, whose interval has the value that it names; what the query leaves out or leaves empty is no
-- condition.
pub queryset_lem :
    (query : Query) (quotes : List (Row Quote)) (q : Row Quote)
    → (bars : List (Row OhlcBar)) (b : Row OhlcBar)
    → (opportunities : List (Row ArbitrageOpportunity)) (a : Row ArbitrageOpportunity)
    → let symbol = given (query (text "instrument")) in
      let interval = given (query (text "interval")) in
      (Any (λ r. r ≡ q) (quote_queryset query quotes)
        ↔ (Any (λ r. r ≡ q) quotes × Meets q.related.symbol symbol))
      × (Any (λ r. r ≡ b) (bar_queryset query bars) ↔ (
          Any (λ r. r ≡ b) bars
          × Meets b.related.symbol symbol
          × Meets (interval_value b.record_of.interval) interval))
      × (Any (λ r. r ≡ a) (opportunity_queryset query opportunities)
          ↔ (Any (λ r. r ≡ a) opportunities × Meets a.related.symbol symbol))
unfolding quote_queryset bar_queryset opportunity_queryset
queryset_lem query quotes q bars b opportunities a =
    let symbol = query (text "instrument") in
    let interval = query (text "interval") in
    let named = Any-filter_by related_symbol symbol b bars in
    let kept =
      Any-filter_by (λ r. interval_value r.record_of.interval) interval b
        (filter_by related_symbol symbol bars) in
    (
      Any-filter_by related_symbol symbol q quotes,
      (
        (λ h. ((named.0 (kept.0 h).0).0, (named.0 (kept.0 h).0).1, (kept.0 h).1)),
        (λ h. kept.1 (named.1 (h.0, h.1), h.2)),
      ),
      Any-filter_by related_symbol symbol a opportunities,
    )
