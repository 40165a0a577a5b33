-- ===== src/Marketplace/Grouping/Laws.antt =====
-- Which channels the groups of `groupChannelsByMarketplace` have, and how their slugs look.
use royale_ai_platform.Prelude.{
  Bool, Option, none, some, List, [], ◌∷◌, ◌++◌, ◌≡◌, refl, sym, ap, ◌∙◌, inl, inr, Bool-cases,
  filter, append_assoc, append-nil,
}
use royale_ai_platform.Text.{Text, text_eq, text_eq_iff}
use royale_ai_platform.Text.Table.{Table, table_get, table_set, table_get-set}
use royale_ai_platform.Marketplace.Grouping.{
  SalesChannel, ChannelGroup, Strings, resolve_marketplace_group, extended, group_loop,
  group_channels_by_marketplace,
}

module _ (strings : Strings) where
  -- The channel belongs to the group of the slug.
  abbrev pub belongs : Text → SalesChannel → Bool
  belongs slug c = text_eq (resolve_marketplace_group strings c).slug slug

  -- The channels of a group, given those that it has so far.
  abbrev merged : Option ChannelGroup → List SalesChannel → Option ChannelGroup
  merged none [] = none
  merged none (c ∷ cs) = some (record {
    slug = (resolve_marketplace_group strings c).slug;
    display_name = (resolve_marketplace_group strings c).display_name;
    channels = c ∷ cs;
  })
  merged (some g) cs =
      some (record { slug = g.slug; display_name = g.display_name; channels = g.channels ++ cs })

  -- The group of a slug by description: none where no channel belongs to it, or else all that do,
  -- with the name of the first.
  abbrev pub group_by_slug : Text → List SalesChannel → Option ChannelGroup
  group_by_slug slug cs = merged none (filter (belongs slug) cs)

  merged-extended :
      (o : Option ChannelGroup) (c : SalesChannel) (cs : List SalesChannel)
      → merged (some (extended strings (resolve_marketplace_group strings c) c o)) cs
        ≡ merged o (c ∷ cs)
  merged-extended none c cs = refl
  merged-extended (some g) c cs = rw (append_assoc g.channels (c ∷ []) cs) refl

  merged-nil : (o : Option ChannelGroup) → merged o [] ≡ o
  merged-nil none = refl
  merged-nil (some g) = rw (append-nil g.channels) refl

  table_get-group_loop :
      (slug : Text) (groups : Table ChannelGroup) (cs : List SalesChannel)
      → table_get slug (group_loop strings groups cs)
        ≡ merged (table_get slug groups) (filter (belongs slug) cs)
  unfolding group_loop
  table_get-group_loop slug groups [] = sym (merged-nil _)
  table_get-group_loop slug groups (c ∷ cs) =
      let g = resolve_marketplace_group strings c in
      let ih =
        table_get-group_loop slug
          (table_set g.slug (extended strings g c (table_get g.slug groups)) groups) cs in
      elim (Bool-cases (belongs slug c)) [
        | inl here ↦
            let same : g.slug ≡ slug = (text_eq_iff g.slug slug).0 here in
            let cs' = filter (belongs slug) cs in
            rw (ih, table_get-set g.slug slug _ groups, here)
              (merged-extended (table_get g.slug groups) c cs'
                ∙ ap (λ (s : Text). merged (table_get s groups) (c ∷ cs')) same)
        | inr elsewhere ↦ rw (ih, table_get-set g.slug slug _ groups, elsewhere) refl
      ]

  -- The group of every slug has, in their order, the channels that `resolveMarketplaceGroup` gives
  -- that slug, under the name of the first of them; there is no group where there are none.
  pub table_get-group_channels :
      (slug : Text) (cs : List SalesChannel)
      → table_get slug (group_channels_by_marketplace strings cs) ≡ group_by_slug slug cs
  unfolding group_channels_by_marketplace table_get
  table_get-group_channels slug cs = table_get-group_loop slug [] cs
