-- ===== src/Insights/Narrative/Engine.antt =====
-- narrative/executive-narrative-engine.ts. What a call of the provider comes to is a value; the times
-- that the template provider reads are arguments. Freezing the input changes nothing that is read.
pub mod Sound
pub mod Alone
use royale_ai_platform.Prelude.{
  Bool, true, false, Option, none, some, List, [], ◌∷◌, ◌++◌, ◌&&◌, not, is_empty, if◌then◌else◌,
}
use royale_ai_platform.Text.{Text}
use royale_ai_platform.Insights.Narrative.{Format, NarrativeInput, NarrativeOutput}
use royale_ai_platform.Insights.Narrative.Guard.{validate}
use royale_ai_platform.Insights.Narrative.Template.{generate_template}

-- What the provider's promise comes to; `nothing` is `null` or `undefined`.
pub data Answer : Type 0 where
  threw : Answer
  nothing : Answer
  gave : NarrativeOutput → Answer

-- The times at which the template provider is called, if it is called there.
pub record Readings : Type 0 where
  pub first : Text
  pub second : Text
  pub third : Text

module _ (format : Format) where
  -- The `try`.
  abbrev first_output : Option (NarrativeInput → Answer) → Text → NarrativeInput → Answer
  first_output none now i = gave (generate_template format now i)
  first_output (some provider) now i = elim (provider i) [
    | threw ↦ gave (generate_template format now i)
    | nothing ↦ nothing
    | gave o ↦ gave o
  ]

  -- `if (!output || !output.summary)`
  abbrev usable_output : Answer → Text → NarrativeInput → NarrativeOutput
  usable_output (gave o) now i = if is_empty o.summary then generate_template format now i else o
  usable_output _ now i = generate_template format now i

  abbrev is_using_external_provider : Option (NarrativeInput → Answer) → Bool
  is_using_external_provider none = false
  is_using_external_provider (some provider) = true

  -- From the validation on.
  abbrev pub guarded :
      Option (NarrativeInput → Answer) → Text → NarrativeInput → NarrativeOutput → NarrativeOutput
  guarded provider now i o =
      let violations = validate i o in
      let o' =
        if not (is_empty violations) && is_using_external_provider provider
        then generate_template format now i
        else o in
      record o' { warnings = o'.warnings ++ violations }

  unfoldable pub generate :
      Option (NarrativeInput → Answer) → Readings → NarrativeInput → NarrativeOutput
  generate provider r i =
      guarded provider r.third i (usable_output (first_output provider r.first i) r.second i)
