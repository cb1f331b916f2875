-- ===== src/Matcher/Suffix/Cover.antt =====
-- matcher.rs: an inserted rule, and the domains that the tree matches.
use ferrumdns.Base.{
  ◌≡◌, refl, Bool, true, false, ◌&&◌, ◌||◌, List, [], ◌∷◌, Text, teq, teq_iff, arith, Bool-cases,
  inl, inr, Option-cases, sym, Option, none, some,
}
use ferrumdns.Matcher.Suffix.{
  SuffixNode, node, Children, leaf, child, terminal, empty_node, get_child, change_entry,
  insert_labels, match_labels,
}

-- The labels of a rule, last first, begin those of the domain.
unfoldable pub labels_begin : List Text → List Text → Bool
labels_begin [] labels = true
labels_begin (r ∷ rule) [] = false
labels_begin (r ∷ rule) (lab ∷ labels) = teq r lab && labels_begin rule labels

-- A rule covers its own domain and what lies below; the rule of the root covers the root alone.
unfoldable pub covers : List Text → List Text → Bool
unfolding labels_begin
covers [] [] = true
covers [] (lab ∷ labels) = false
covers (r ∷ rule) labels = labels_begin (r ∷ rule) labels

abbrev or_new : Option SuffixNode → SuffixNode
or_new none = empty_node
or_new (some n) = n

-- The node below, or a new one.
abbrev child_or_new : Text → Children → SuffixNode
child_or_new lab cs = or_new (get_child lab cs)

get_child-change_entry_self :
    (lab : Text) (f : SuffixNode → SuffixNode) (cs : Children)
    → get_child lab (change_entry lab f cs) ≡ some (f (child_or_new lab cs))
unfolding get_child change_entry
get_child-change_entry_self lab f leaf = ground (arith, teq_iff lab lab)
get_child-change_entry_self lab f (child k n cs) = elim (Bool-cases (teq k lab)) [
  | inl e ↦ ground arith
  | inr e ↦ rw (e, e) (get_child-change_entry_self lab f cs)
]

get_child-change_entry_ne :
    (lab key : Text) (f : SuffixNode → SuffixNode) (cs : Children)
    → teq lab key ≡ false
    → get_child key (change_entry lab f cs) ≡ get_child key cs
unfolding get_child change_entry
get_child-change_entry_ne lab key f leaf h = ground arith
get_child-change_entry_ne lab key f (child k n cs) h =
    ground (
      arith,
      teq_iff k lab,
      teq_iff k key,
      teq_iff lab key,
      get_child-change_entry_ne lab key f cs h,
    )

-- A node below the root matches as soon as it is terminal.
abbrev reaches : List Text → SuffixNode → Bool
reaches labels n = terminal n || match_labels labels n

reaches-empty : (labels : List Text) → reaches labels empty_node ≡ false
unfolding match_labels get_child
reaches-empty [] = refl
reaches-empty (lab ∷ labels) = refl

-- `match_labels` at the next label, by what the map holds there.
abbrev any_reaches : List Text → Option SuffixNode → Bool
any_reaches labels none = false
any_reaches labels (some next) = reaches labels next

next_reaches : Text → List Text → Children → Bool
next_reaches lab labels cs = any_reaches labels (get_child lab cs)

match_labels-cons :
    (lab : Text) (labels : List Text) (t : Bool) (cs : Children)
    → match_labels (lab ∷ labels) (node t cs) ≡ next_reaches lab labels cs
unfolding match_labels next_reaches
match_labels-cons lab labels t cs = ground arith

next_reaches-child_or_new :
    (lab : Text) (labels : List Text) (cs : Children)
    → next_reaches lab labels cs ≡ reaches labels (child_or_new lab cs)
unfolding next_reaches
next_reaches-child_or_new lab labels cs = elim (Option-cases (get_child lab cs)) [
  | inl e ↦ rw e (sym (reaches-empty labels))
  | inr (n, e) ↦ rw e
]

next_reaches-change_entry_self :
    (lab : Text) (labels : List Text) (f : SuffixNode → SuffixNode) (cs : Children)
    → next_reaches lab labels (change_entry lab f cs) ≡ reaches labels (f (child_or_new lab cs))
unfolding next_reaches
next_reaches-change_entry_self lab labels f cs =
    rw (get_child-change_entry_self lab f cs, next_reaches)

next_reaches-change_entry :
    (rule : List Text) (r lab : Text) (labels : List Text) (cs : Children)
    → ((n : SuffixNode)
        → reaches labels (insert_labels rule n) ≡ labels_begin rule labels || reaches labels n)
    → next_reaches lab labels (change_entry r (insert_labels rule) cs)
      ≡ (teq r lab && labels_begin rule labels) || next_reaches lab labels cs
next_reaches-change_entry rule r lab labels cs ih = elim (Bool-cases (teq r lab)) [
  | inl e ↦
      rw (e, (teq_iff r lab).0 e, next_reaches-change_entry_self, next_reaches-child_or_new)
        (ih (child_or_new lab cs))
  | inr e ↦
      unfold next_reaches in
      rw (e, get_child-change_entry_ne r lab (insert_labels rule) cs e, next_reaches)
]

reaches-insert_labels :
    (rule labels : List Text) (n : SuffixNode)
    → reaches labels (insert_labels rule n) ≡ labels_begin rule labels || reaches labels n
unfolding insert_labels labels_begin
reaches-insert_labels [] labels (node t cs) = refl
reaches-insert_labels (r ∷ rule) [] (node t cs) = unfold match_labels in refl
reaches-insert_labels (r ∷ rule) (lab ∷ labels) (node t cs) = ground (
  arith,
  match_labels-cons lab labels t (change_entry r (insert_labels rule) cs),
  match_labels-cons lab labels t cs,
  next_reaches-change_entry rule r lab labels cs (reaches-insert_labels rule labels),
)

-- Inserting a rule into the suffix tree makes it match, besides what it matched, exactly the domains
-- that the rule covers: its own domain and everything below it (the empty rule: the root alone).
pub match_labels-insert_labels :
    (rule labels : List Text) (n : SuffixNode)
    → match_labels labels (insert_labels rule n) ≡ covers rule labels || match_labels labels n
unfolding insert_labels covers
match_labels-insert_labels [] [] (node t cs) = unfold match_labels in refl
match_labels-insert_labels [] (lab ∷ labels) (node t cs) = unfold match_labels in refl
match_labels-insert_labels (r ∷ rule) [] (node t cs) = unfold match_labels in refl
match_labels-insert_labels (r ∷ rule) (lab ∷ labels) (node t cs) = ground (
  arith,
  match_labels-cons lab labels t (change_entry r (insert_labels rule) cs),
  match_labels-cons lab labels t cs,
  next_reaches-change_entry rule r lab labels cs (reaches-insert_labels rule labels),
)
