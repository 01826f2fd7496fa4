-- ===== src/Evaluation/Render/Grouping.antt =====
-- src/contexts/evaluation/interface/prompt.rs, group_by_display_item: which ids the groups hold.
use merge_ready.Prelude.{
  ℕ, suc, ◌≤◌, true, false, List, [], ◌∷◌, ◌++◌, if◌then◌else◌, ◌≡◌, refl, sym, ap, ◌∙◌, arith,
}
use mathlib.Core.List.{append_assoc, append-nil}
use merge_ready.Evaluation.State.{PrId}
use merge_ready.Evaluation.Display.{DisplayItem}
use merge_ready.Evaluation.Render.{
  same_item, Items, Groups, add_to_group, add_all, group_loop, group_by_display_item,
}

same_item_refl : (d : DisplayItem) → same_item d d ≡ true
unfolding same_item
same_item_refl d = ground arith

same_item_eq : (d e : DisplayItem) → same_item d e ≡ true → d ≡ e
unfolding same_item
same_item_eq d e h = ground arith

-- The ids of the first group of an item.
abbrev pub ids_of : DisplayItem → Groups → List PrId
ids_of item [] = []
ids_of item ((d, ids) ∷ groups) = if same_item d item then ids else ids_of item groups

-- How many groups an item has.
abbrev pub groups_of : DisplayItem → Groups → ℕ
groups_of item [] = 0
groups_of item ((d, ids) ∷ groups) =
    let rest = groups_of item groups in if same_item d item then suc rest else rest

-- An id, once for each time its items hold the item.
abbrev pub id_for : DisplayItem → PrId → List DisplayItem → List PrId
id_for item pr_id [] = []
id_for item pr_id (d ∷ items) =
    let rest = id_for item pr_id items in if same_item d item then pr_id ∷ rest else rest

-- The ids of the pull requests that show an item, in their order.
abbrev pub showing : DisplayItem → Items → List PrId
showing item [] = []
showing item ((pr_id, items) ∷ rest) = id_for item pr_id items ++ showing item rest

ids_of-add_to_group :
    (item d : DisplayItem) (pr_id : PrId) (groups : Groups)
    → ids_of item (add_to_group d pr_id groups) ≡ ids_of item groups ++ id_for item pr_id (d ∷ [])
unfolding add_to_group
ids_of-add_to_group item d pr_id [] = refl
ids_of-add_to_group item d pr_id ((e, ids) ∷ groups) = ground (
  arith,
  ids_of-add_to_group item d pr_id groups,
  append-nil ids,
  append-nil (ids_of item groups),
  same_item_eq e d,
  same_item_eq e item,
  same_item_eq d item,
  same_item_refl item,
  same_item_refl d,
)

id_for-cons :
    (item : DisplayItem) (pr_id : PrId) (d : DisplayItem) (items : List DisplayItem)
    → id_for item pr_id (d ∷ []) ++ id_for item pr_id items ≡ id_for item pr_id (d ∷ items)
id_for-cons item pr_id d items = ground arith

ids_of-add_all :
    (item : DisplayItem) (pr_id : PrId) (items : List DisplayItem) (groups : Groups)
    → ids_of item (add_all pr_id items groups) ≡ ids_of item groups ++ id_for item pr_id items
unfolding add_all
ids_of-add_all item pr_id [] groups = sym (append-nil (ids_of item groups))
ids_of-add_all item pr_id (d ∷ items) groups =
    ids_of-add_all item pr_id items (add_to_group d pr_id groups)
    ∙ ap (λ l. l ++ id_for item pr_id items) (ids_of-add_to_group item d pr_id groups)
    ∙ append_assoc (ids_of item groups) (id_for item pr_id (d ∷ [])) (id_for item pr_id items)
    ∙ ap (λ l. ids_of item groups ++ l) (id_for-cons item pr_id d items)

ids_of-group_loop :
    (item : DisplayItem) (items : Items) (groups : Groups)
    → ids_of item (group_loop items groups) ≡ ids_of item groups ++ showing item items
unfolding group_loop
ids_of-group_loop item [] groups = sym (append-nil (ids_of item groups))
ids_of-group_loop item ((pr_id, items) ∷ rest) groups =
    ids_of-group_loop item rest (add_all pr_id items groups)
    ∙ ap (λ l. l ++ showing item rest) (ids_of-add_all item pr_id items groups)
    ∙ append_assoc (ids_of item groups) (id_for item pr_id items) (showing item rest)

-- The group of a display item holds the ids of the pull requests that show it, in the order of
-- those, and no other; an item that none shows has no ids.
pub ids_of-group_by_display_item :
    (item : DisplayItem) (items : Items)
    → ids_of item (group_by_display_item items) ≡ showing item items
unfolding group_by_display_item
ids_of-group_by_display_item item items = ids_of-group_loop item items []

abbrev pub one_if_any : List PrId → ℕ
one_if_any [] = 0
one_if_any (_ ∷ _) = 1

groups_of-add_to_other :
    (item d : DisplayItem) (pr_id : PrId) (groups : Groups)
    → same_item d item ≡ false
    → groups_of item (add_to_group d pr_id groups) ≡ groups_of item groups
unfolding add_to_group
groups_of-add_to_other item d pr_id [] h = ground arith
groups_of-add_to_other item d pr_id ((e, ids) ∷ groups) h =
    ground (arith, groups_of-add_to_other item d pr_id groups h, same_item_eq e d)

one_if_any-push : (ids : List PrId) (pr_id : PrId) → one_if_any (ids ++ pr_id ∷ []) ≡ 1
one_if_any-push [] pr_id = refl
one_if_any-push (x ∷ ids) pr_id = refl

one_if_any_le : (ids : List PrId) → one_if_any ids ≤ 1
one_if_any_le [] = omega arith
one_if_any_le (x ∷ ids) = omega arith

groups_of-add_to_group :
    (item d : DisplayItem) (pr_id : PrId) (groups : Groups)
    → groups_of item groups ≡ one_if_any (ids_of item groups)
    → groups_of item (add_to_group d pr_id groups)
      ≡ one_if_any (ids_of item (add_to_group d pr_id groups))
unfolding add_to_group
groups_of-add_to_group item d pr_id [] h = ground arith
groups_of-add_to_group item d pr_id ((e, ids) ∷ groups) h = ground (
  arith,
  groups_of-add_to_group item d pr_id groups,
  groups_of-add_to_other item d pr_id groups,
  one_if_any-push ids pr_id,
  one_if_any_le ids,
  same_item_eq e d,
  same_item_eq e item,
  same_item_eq d item,
)

groups_of-add_all :
    (item : DisplayItem) (pr_id : PrId) (items : List DisplayItem) (groups : Groups)
    → groups_of item groups ≡ one_if_any (ids_of item groups)
    → groups_of item (add_all pr_id items groups)
      ≡ one_if_any (ids_of item (add_all pr_id items groups))
unfolding add_all
groups_of-add_all item pr_id [] groups h = h
groups_of-add_all item pr_id (d ∷ items) groups h =
    groups_of-add_all item pr_id items (add_to_group d pr_id groups)
      (groups_of-add_to_group item d pr_id groups h)

groups_of-group_loop :
    (item : DisplayItem) (items : Items) (groups : Groups)
    → groups_of item groups ≡ one_if_any (ids_of item groups)
    → groups_of item (group_loop items groups) ≡ one_if_any (ids_of item (group_loop items groups))
unfolding group_loop
groups_of-group_loop item [] groups h = h
groups_of-group_loop item ((pr_id, items) ∷ rest) groups h =
    groups_of-group_loop item rest (add_all pr_id items groups)
      (groups_of-add_all item pr_id items groups h)

-- A display item has one group if a pull request shows it, and no group otherwise.
pub groups_of-group_by_display_item :
    (item : DisplayItem) (items : Items)
    → groups_of item (group_by_display_item items) ≡ one_if_any (showing item items)
unfolding group_by_display_item
groups_of-group_by_display_item item items =
    groups_of-group_loop item items [] refl
    ∙ ap one_if_any (ids_of-group_by_display_item item items)
