-- ===== src/Market/Texts.antt =====
-- internal/market/series.go: the texts of a refusal and of the other reasons for no volatility.
use verdict_machine.Base.{◌++◌}
use verdict_machine.Base.Int.{pos}
use verdict_machine.Base.Text.{Text, bytes}
use verdict_machine.Base.Format.{format_int}
use verdict_machine.Time.{date_only}
use verdict_machine.Market.Fence.{BoundaryRefusal}
use verdict_machine.Market.Volatility.{Skip, fenced, few_returns, no_bars}

-- `BoundaryRefusal.Error`: what stands before the words on the guard band, and what stands from there on.
abbrev pub refused_window : BoundaryRefusal → Text
refused_window r =
    bytes "entity "
    ++ (format_int r.entity_id
        ++ (bytes ": window " ++ (date_only r.from_date ++ (bytes ".." ++ date_only r.to_date))))

abbrev pub refused_band : BoundaryRefusal → Text
refused_band r =
    date_only r.guard_start
    ++ (bytes ".."
        ++ (date_only r.boundary.date
            ++ (bytes " ("
                ++ (r.boundary.predecessor_isin
                    ++ (bytes " -> "
                        ++ (r.boundary.successor_isin
                            ++ bytes
                                "); nse-bhavcopy is unadjusted and the read-time adjustments layer does not exist, so this return would be wrong by the split factor"))))))

unfoldable pub refusal_text : BoundaryRefusal → Text
refusal_text r = refused_window r ++ (bytes " crosses the succession guard band " ++ refused_band r)

-- What EntityVolatility writes of an entity that it has no volatility for.
unfoldable pub skip_text : Skip → Text
skip_text (fenced r) = refusal_text r
skip_text (few_returns n) =
    bytes "only " ++ (format_int (pos n) ++ bytes " usable daily returns in the window")
skip_text no_bars = bytes "no bars in the window"
