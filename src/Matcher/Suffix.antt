-- ===== src/Matcher/Suffix.antt =====
-- matcher.rs: the tree of reversed labels that holds the suffix rules.
pub mod Cover
use ferrumdns.Base.{
  ℕ, ◌+◌, Bool, true, false, Option, none, some, List, [], ◌∷◌, Text, teq, split_on, if◌then◌else◌,
  filter, is_empty, not,
}
use mathlib.Core.List.{reverse}

-- The map from labels to children is a list of entries.
mutual
  pub data SuffixNode : Type 0 where
    node : Bool → Children → SuffixNode

  pub data Children : Type 0 where
    leaf : Children
    child : Text → SuffixNode → Children → Children

abbrev pub terminal : SuffixNode → Bool
terminal (node t cs) = t

abbrev pub children : SuffixNode → Children
children (node t cs) = cs

-- `SuffixNode::default()`.
abbrev pub empty_node : SuffixNode
empty_node = node false leaf

unfoldable pub get_child : Text → Children → Option SuffixNode
get_child lab leaf = none
get_child lab (child k n cs) = if teq k lab then some n else get_child lab cs

-- `children.entry(lab).or_default()`, changed by `f`.
unfoldable pub change_entry : Text → (SuffixNode → SuffixNode) → Children → Children
change_entry lab f leaf = child lab (f empty_node) leaf
change_entry lab f (child k n cs) =
    let rest = change_entry lab f cs in if teq k lab then child k (f n) cs else child k n rest

-- The loop of `insert_suffix`.
unfoldable pub insert_labels : List Text → SuffixNode → SuffixNode
unfolding change_entry
insert_labels [] (node t cs) = node true cs
insert_labels (lab ∷ labels) (node t cs) = node t (change_entry lab (insert_labels labels) cs)

-- The loop of `suffix_match`.
unfoldable pub match_labels : List Text → SuffixNode → Bool
unfolding get_child
match_labels [] n = terminal n
match_labels (lab ∷ labels) n = elim (get_child lab (children n)) [
  | none ↦ false
  | some next ↦ if terminal next then true else match_labels labels next
]

-- `split('.').rev()`, less the empty labels.
unfoldable pub labels_of : Text → List Text
labels_of domain = filter (λ s. not (is_empty s)) (reverse (split_on b'.' domain))

unfoldable pub insert_suffix : Text → SuffixNode → SuffixNode
unfolding labels_of insert_labels
insert_suffix domain n = insert_labels (labels_of domain) n

unfoldable pub suffix_match : Text → SuffixNode → Bool
unfolding labels_of match_labels
suffix_match domain n = match_labels (labels_of domain) n

unfoldable mutual
  pub count_terminals : SuffixNode → ℕ
  count_terminals (node t cs) = (if t then 1 else 0) + count_children cs

  pub count_children : Children → ℕ
  count_children leaf = 0
  count_children (child k n cs) = count_terminals n + count_children cs
