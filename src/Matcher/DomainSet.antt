-- ===== src/Matcher/DomainSet.antt =====
-- matcher.rs: `DomainSet`. Regular expressions are those of the crate regex, and files are read
-- through a parameter.
pub mod Rules
use ferrumdns.Base.{
  ℕ, ◌+◌, Bool, true, false, ◌||◌, ◌==◌, Option, none, some, List, [], ◌∷◌, ◌++◌, reverse, Text,
  codes, teq, trim, trim_start_by, trim_end_by, to_ascii_lowercase, strip_prefix, starts_with,
  contains_text, split_on, config, Result, ok, err, ◌>>=◌, ok_or, any, length, is_empty,
  if◌then◌else◌,
}
use ferrumdns.Config.Paths.{resolve_path}
use ferrumdns.Matcher.Suffix.{SuffixNode, empty_node, insert_suffix, suffix_match, count_terminals}
use ferrumdns.Yaml.{Value, get, as_str, items}

pub record DomainSet : Type 0 where
  pub suffix : SuffixNode
  pub full : List Text
  pub keywords : List Text
  pub regexes : List Text

abbrev pub new_set : DomainSet
new_set = record { suffix = empty_node; full = []; keywords = []; regexes = [] }

-- What the crate regex computes: `Regex::new(…).is_ok()` and `is_match`.
pub record Regexes : Type 0 where
  pub compiles : Text → Bool
  pub is_match : Text → Text → Bool

abbrev is_dot : ℕ → Bool
is_dot c = c == b'.'

unfoldable pub normalize_domain : Text → Text
unfolding trim trim_start_by trim_end_by to_ascii_lowercase
normalize_domain s = to_ascii_lowercase (trim_start_by is_dot (trim_end_by is_dot (trim s)))

abbrev pub is_comment : Text → Bool
is_comment s = is_empty s || starts_with (codes "#") s

-- `HashSet::insert`.
abbrev pub insert_full : Text → List Text → List Text
insert_full d full = if any (λ f. teq f d) full then full else d ∷ full

-- `split('\n')`, less the end of the last line and a `\r` before an end.
abbrev drop_cr : Text → Text
drop_cr s = elim (reverse s) [ [] ↦ [] | c ∷ r ↦ if c == 13 then reverse r else s ]

abbrev drop_last_empty : List Text → List Text
drop_last_empty [] = []
drop_last_empty (l ∷ []) = if is_empty l then [] else l ∷ []
drop_last_empty (l ∷ m ∷ ls) = drop_cr l ∷ drop_last_empty (m ∷ ls)

unfoldable pub lines : Text → List Text
unfolding split_on
lines s = drop_last_empty (split_on 10 s)

module _ (R : Regexes) where
  unfoldable pub add_rule : Text → DomainSet → Result DomainSet
  unfolding trim strip_prefix starts_with to_ascii_lowercase normalize_domain insert_suffix
  add_rule raw' set =
      let raw = trim raw' in
      if is_comment raw then ok set else elim (strip_prefix (codes "full:") raw) [
        | some rest ↦ ok (record set { full = insert_full (normalize_domain rest) set.full })
        | none ↦ elim (strip_prefix (codes "keyword:") raw) [
          | some rest ↦ ok (record set { keywords = set.keywords ++ to_ascii_lowercase rest ∷ [] })
          | none ↦ elim (strip_prefix (codes "regexp:") raw) [
            | some rest ↦
                if R.compiles rest
                then ok (record set { regexes = set.regexes ++ rest ∷ [] })
                else err (config "bad regexp")
            | none ↦ elim (strip_prefix (codes "domain:") raw) [
              | some rest ↦
                  ok (record set { suffix = insert_suffix (normalize_domain rest) set.suffix })
              | none ↦ ok (record set { suffix = insert_suffix (normalize_domain raw) set.suffix })
            ]
          ]
        ]
      ]

  -- The rules of a list, one after the other, up to the first error.
  unfoldable pub add_rules : List Text → DomainSet → Result DomainSet
  unfolding add_rule
  add_rules [] set = ok set
  add_rules (raw ∷ raws) set = do set' ← add_rule raw set; add_rules raws set'

  -- The loop of `load_file` over the lines.
  unfoldable pub load_lines : List Text → DomainSet → Result DomainSet
  unfolding add_rule
  load_lines [] set = ok set
  load_lines (l ∷ ls) set =
      let line = trim l in
      let skip = load_lines ls set in
      let add = add_rule line set >>= load_lines ls in if is_comment line then skip else add

  unfoldable pub load_file : (Text → Option Text) → Text → DomainSet → Result DomainSet
  unfolding load_lines lines
  load_file read path set = do
    text ← ok_or (read path) (config "domain_set file")
    load_lines (lines text) set

  unfoldable pub add_values : List Value → DomainSet → Result DomainSet
  unfolding add_rule
  add_values [] set = ok set
  add_values (v ∷ vs) set = do
    set' ← elim (as_str v) [ none ↦ ok set | some s ↦ add_rule s set ]
    add_values vs set'

  unfoldable pub load_files :
      (Text → Option Text) → Text → List Value → DomainSet → Result DomainSet
  unfolding load_file resolve_path
  load_files read base [] set = ok set
  load_files read base (v ∷ vs) set = do
    set' ← elim (as_str v) [ none ↦ ok set | some p ↦ load_file read (resolve_path base p) set ]
    load_files read base vs set'

  unfoldable pub from_args : (Text → Option Text) → Value → Text → Result DomainSet
  unfolding add_values load_files get
  from_args read args base = do
    set ← add_values (items (codes "exps") args) new_set
    load_files read base (items (codes "files") args) set

  unfoldable pub contains : Text → DomainSet → Bool
  unfolding normalize_domain suffix_match contains_text
  contains domain set =
      let d = normalize_domain domain in
      if any (λ f. teq f d) set.full
      then true
      else if suffix_match d set.suffix
      then true
      else if any (λ kw. contains_text kw d) set.keywords
      then true
      else any (λ re. R.is_match re d) set.regexes

unfoldable pub size : DomainSet → ℕ
unfolding count_terminals
size set = length set.full + length set.keywords + length set.regexes + count_terminals set.suffix
