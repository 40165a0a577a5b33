-- ===== src/Insights/Narrative/Engine/Alone.antt =====
-- What the engine gives when it has no external provider.
use royale_ai_platform.Prelude.{Bool, true, false, none, ◌++◌, ◌≡◌, refl, ◌&&◌, not, is_empty}
use royale_ai_platform.Text.{Text, text}
use royale_ai_platform.Insights.Narrative.{Format, NarrativeInput}
use royale_ai_platform.Insights.Narrative.Guard.{validate}
use royale_ai_platform.Insights.Narrative.Template.{
  or_empty, build_summary, build_warnings, generate_template,
}
use royale_ai_platform.Insights.Narrative.Template.Guarded.{unknown, validate-generate_template}
use royale_ai_platform.Insights.Narrative.Engine.{Readings, generate}

and_false : (b : Bool) → (b && false) ≡ false
and_false true = refl
and_false false = refl

summary_full :
    (f : Format) (now : Text) (i : NarrativeInput)
    → is_empty (generate_template f now i).summary ≡ false
unfolding generate_template build_summary
summary_full f now i = refl

warnings_of :
    (f : Format) (now : Text) (i : NarrativeInput)
    → (generate_template f now i).warnings ≡ build_warnings i
unfolding generate_template
warnings_of f now i = refl

-- Without an external provider the narrative is that of the template provider at the first reading of
-- the clock, but for its warnings: to those of the provider it adds one for the date of the
-- resolving and one for that of the archiving, where the input has them.
pub generate_alone :
    (f : Format) (r : Readings) (i : NarrativeInput)
    → generate f none r i ≡ record (generate_template f r.first i) {
      warnings =
          build_warnings i
          ++ (unknown (text "resolvedAt") (or_empty i.resolved_at)
              ++ unknown (text "archivedAt") (or_empty i.archived_at));
    }
unfolding generate
generate_alone f r i = rw (
  summary_full f r.first i,
  and_false (not (is_empty (validate i (generate_template f r.first i)))),
  validate-generate_template f r.first i,
  warnings_of f r.first i,
)
