-- ===== src/Marketplace/Grouping.antt =====
-- The grouping of sales channels: grouping.ts and health.ts of
-- frontend/src/features/marketplace/utils. `toLowerCase` and `normalize("NFD")` are arguments. The
-- fields of a channel that nothing here reads are left out.
pub mod Laws
use royale_ai_platform.Prelude.{
  ℕ, Bool, true, false, Option, none, some, List, [], ◌∷◌, ◌++◌, ◌&&◌, ◌||◌, leb, if◌then◌else◌,
  is_empty, filter,
}
use royale_ai_platform.Text.{Text, text, text_eq}
use royale_ai_platform.Text.Search.{includes_any}
use royale_ai_platform.Text.Split.{trim}
use royale_ai_platform.Text.Table.{Table, table_get, table_set}

pub record SalesChannel : Type 0 where
  pub id : Text
  pub name : Text
  pub tipo : Option Text

pub record Group : Type 0 where
  pub slug : Text
  pub display_name : Text

pub record ChannelGroup : Type 0 where
  pub slug : Text
  pub display_name : Text
  pub channels : List SalesChannel

-- `/[\u0300-\u036f]/`
abbrev pub is_combining : ℕ → Bool
is_combining c = leb 768 c && leb c 879

-- `/[a-z0-9]/`
abbrev pub is_plain : ℕ → Bool
is_plain c = (leb 97 c && leb c 122) || (leb 48 c && leb c 57)

unfoldable pub without : (ℕ → Bool) → Text → Text
without p [] = []
without p (c ∷ s) = let rest = without p s in if p c then rest else c ∷ rest

-- A rule of `GROUP_RULES`: the group, and the texts one of which the name must include.
pub record GroupRule : Type 0 where
  pub group : Group
  pub marks : List Text

abbrev pub group_rules : List GroupRule
group_rules =
    record {
      group = record { slug = text "amazon"; display_name = text "Amazon" };
      marks = text "amazon" ∷ [];
    }
    ∷ record {
      group = record { slug = text "mercado-livre"; display_name = text "Mercado Livre" };
      marks = text "mercadolivre" ∷ text "mercado_livre" ∷ text "mercadolivre" ∷ [];
    }
    ∷ record {
      group = record { slug = text "shopee"; display_name = text "Shopee" };
      marks = text "shopee" ∷ [];
    }
    ∷ record {
      group = record { slug = text "magazine-luiza"; display_name = text "Magazine Luiza" };
      marks = text "magalu" ∷ text "magazineluiza" ∷ text "magazine luiza" ∷ [];
    }
    ∷ record {
      group = record { slug = text "tiktok-shop"; display_name = text "TikTok Shop" };
      marks = text "tiktok" ∷ [];
    }
    ∷ []

-- The inner loop of `resolveMarketplaceGroup`.
unfoldable pub match_rules : List GroupRule → Text → Option Group
match_rules [] n = none
match_rules (rule ∷ rules) n =
    let rest = match_rules rules n in if includes_any rule.marks n then some rule.group else rest

abbrev pub or_text : Option Text → Text → Text
or_text none other = other
or_text (some t) other = t

-- `a || b` on texts
abbrev pub or_other : Text → Text → Text
or_other [] other = other
or_other (c ∷ s) other = c ∷ s

abbrev pub or_group : Option Group → Group → Group
or_group none other = other
or_group (some g) other = g

-- The strings' methods that the module calls.
pub record Strings : Type 0 where
  pub to_lower_case : Text → Text
  pub normalize_nfd : Text → Text

module _ (strings : Strings) where
  unfoldable pub normalize_for_grouping : Text → Text
  normalize_for_grouping value =
      without (λ c. if is_plain c then false else true)
        (without is_combining (strings.normalize_nfd (strings.to_lower_case (trim value))))

  -- The outer loop: the first of the candidates that matches a rule.
  unfoldable pub match_candidates : List Text → Option Group
  match_candidates [] = none
  match_candidates (candidate ∷ rest) =
      let found = match_candidates rest in
      let normalized = normalize_for_grouping candidate in
      if is_empty normalized
      then found
      else (elim (match_rules group_rules normalized) [ none ↦ found | some g ↦ some g ])

  abbrev pub fallback_group : Text → Group
  fallback_group name = record {
    slug = or_other (normalize_for_grouping name) (text "outro");
    display_name = or_other name (text "Outro");
  }

  unfoldable pub resolve_marketplace_group : SalesChannel → Group
  resolve_marketplace_group channel =
      or_group (match_candidates (or_text channel.tipo [] ∷ channel.name ∷ []))
        (fallback_group (or_text channel.tipo channel.name))

  -- `existing.channels.push(channel)`, or a new group.
  abbrev pub extended : Group → SalesChannel → Option ChannelGroup → ChannelGroup
  extended g channel none = record {
    slug = g.slug;
    display_name = g.display_name;
    channels = channel ∷ [];
  }
  extended g channel (some existing) = record {
    slug = existing.slug;
    display_name = existing.display_name;
    channels = existing.channels ++ channel ∷ [];
  }

  unfoldable pub group_loop : Table ChannelGroup → List SalesChannel → Table ChannelGroup
  group_loop groups [] = groups
  group_loop groups (channel ∷ channels) =
      let g = resolve_marketplace_group channel in
      group_loop (table_set g.slug (extended g channel (table_get g.slug groups)) groups) channels

  unfoldable pub group_channels_by_marketplace : List SalesChannel → Table ChannelGroup
  group_channels_by_marketplace channels = group_loop [] channels

-- `marketplaceSlugFromGroup`
unfoldable pub marketplace_slug_from_group : Text → Text
marketplace_slug_from_group slug = slug

-- `MarketplaceHealth`, with the label and the colours of `getHealthConfig`.
pub record HealthConfig : Type 0 where
  pub level : Text
  pub label : Text
  pub color : Text
  pub bar_color : Text

abbrev pub health : Text → Text → Text → HealthConfig
health level label colour = record {
  level = level;
  label = label;
  color = text "text-" ++ colour;
  bar_color = text "bg-" ++ colour;
}

-- `getHealthConfig` on a score that is a natural number.
unfoldable pub get_health_config : ℕ → HealthConfig
get_health_config score =
    if leb 90 score
    then health (text "excellent") (text "Excelente") (text "success")
    else (if leb 70 score
        then health (text "good") (text "Bom") (text "info")
        else (if leb 50 score
            then health (text "attention") (text "Atenção") (text "warning")
            else health (text "critical") (text "Crítico") (text "destructive")))
