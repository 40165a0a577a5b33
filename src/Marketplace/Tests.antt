-- ===== src/Marketplace/Tests.antt =====
-- The grouping of three channels of two marketplaces.
use royale_ai_platform.Prelude.{none, some, [], ◌∷◌, ◌≡◌, refl}
use royale_ai_platform.Text.{text}
use royale_ai_platform.Text.Search.{includes, includes_any, starts_with}
use royale_ai_platform.Text.Table.{table_get}
use royale_ai_platform.Marketplace.Grouping.{
  SalesChannel, Strings, group_channels_by_marketplace, match_rules, group_rules,
}
use royale_ai_platform.Marketplace.Grouping.Laws.{group_by_slug, table_get-group_channels}

-- Texts that are in lower case without accents already.
abbrev plain : Strings
plain = record { to_lower_case = λ t. t; normalize_nfd = λ t. t }

abbrev amazon : SalesChannel
amazon = record { id = text "1"; name = text "loja amazon"; tipo = none }

abbrev magalu : SalesChannel
magalu = record { id = text "2"; name = text "magalu"; tipo = some (text "loja") }

abbrev amazon_too : SalesChannel
amazon_too = record { id = text "3"; name = text "outra"; tipo = some (text "amazon.com.br") }

table_get-group_channels_example :
    table_get
      (text "amazon")
      (group_channels_by_marketplace plain (amazon ∷ magalu ∷ amazon_too ∷ []))
    ≡ group_by_slug plain (text "amazon") (amazon ∷ magalu ∷ amazon_too ∷ [])
table_get-group_channels_example =
    table_get-group_channels plain (text "amazon") (amazon ∷ magalu ∷ amazon_too ∷ [])

-- Two marks of the rules have signs that no normalised name has: the full stop, the space and the
-- line are taken out before the rules are asked.
mercado_livre_mark :
    match_rules group_rules (text "mercadolivre")
    ≡ some (record { slug = text "mercado-livre"; display_name = text "Mercado Livre" })
unfolding match_rules includes_any includes starts_with
mercado_livre_mark = refl
