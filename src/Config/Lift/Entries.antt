-- ===== src/Config/Lift/Entries.antt =====
-- config.rs: the entries of servers once they are normalised.
use mathlib.Core.List.{reverse-append, reverse-reverse}
use ferrumdns.Base.{
  ℕ, ◌≡◌, refl, ap, ◌∙◌, arith, inl, inr, Bool-cases, Bool, false, not, ◌&&◌, ◌||◌, List, [], ◌∷◌,
  ◌==◌, Text, All, any, any-append, is_empty, is_white, reverse, trim, trim_start_by, trim_end_by,
  if◌then◌else◌, ok, err, >>=-eq-ok, ok-eq, subst, config,
}
use ferrumdns.Config.Lift.{strip_dollars, normalize_entry, normalize_servers, normalize_entries}
use ferrumdns.Config.Types.{ServerConfig, Config}

-- No white space, and no `$` in front.
abbrev pub IsEntry : Text → Type 0
IsEntry e = (any is_white e ≡ false) × (strip_dollars e ≡ e)

module _ (p : ℕ → Bool) where
  trim_start_by-clean : (s : Text) → any p s ≡ false → trim_start_by p s ≡ s
  unfolding trim_start_by
  trim_start_by-clean [] h = refl
  trim_start_by-clean (c ∷ s) h = ground arith

  any-reverse : (s : Text) → any p s ≡ false → any p (reverse s) ≡ false
  any-reverse [] h = refl
  any-reverse (c ∷ s) h =
      ap (any p) (reverse-append (c ∷ []) s)
      ∙ any-append p (reverse s) (c ∷ [])
      ∙ ground (arith, any-reverse s)

  trim_end_by-clean : (s : Text) → any p s ≡ false → trim_end_by p s ≡ s
  unfolding trim_end_by
  trim_end_by-clean s h =
      ap reverse (trim_start_by-clean (reverse s) (any-reverse s h)) ∙ reverse-reverse s

  trim_start_by_idem : (s : Text) → trim_start_by p (trim_start_by p s) ≡ trim_start_by p s
  unfolding trim_start_by
  trim_start_by_idem [] = refl
  trim_start_by_idem (c ∷ s) = ground (arith, trim_start_by_idem s)

trim-clean : (s : Text) → any is_white s ≡ false → trim s ≡ s
unfolding trim
trim-clean s h =
    ap (trim_end_by is_white) (trim_start_by-clean is_white s h) ∙ trim_end_by-clean is_white s h

-- The guard of an entry, where it lets the entry pass.
guarded :
    (raw entry e : Text)
    → (if (not (is_empty raw) && is_empty entry) || any is_white entry
        then err (config "invalid server entry")
        else ok entry)
      ≡ ok e
    → (any is_white entry ≡ false) × (entry ≡ e)
guarded raw entry e h = (ground arith, ground arith)

normalize_entry-IsEntry : (exec e : Text) → normalize_entry exec ≡ ok e → IsEntry e
unfolding normalize_entry
normalize_entry-IsEntry exec e h =
    let raw = trim exec in
    let (clean, same) = guarded raw (strip_dollars raw) e h in
    subst IsEntry same (clean, trim_start_by_idem (λ c. c == b'$') raw)

normalize_entry-entry : (e : Text) → IsEntry e → normalize_entry e ≡ ok e
unfolding normalize_entry
normalize_entry-entry e (clean, plain) =
    rw (normalize_entry, trim-clean e clean, plain, clean)
      (elim (Bool-cases (is_empty e)) [ inl empty ↦ rw empty refl | inr full ↦ rw full refl ])

abbrev pub AreEntries : List ServerConfig → Type 0
AreEntries servers = All (λ (s : ServerConfig). IsEntry s.exec) servers

normalize_servers-AreEntries :
    (servers servers' : List ServerConfig)
    → normalize_servers servers ≡ ok servers'
    → AreEntries servers'
unfolding normalize_servers
normalize_servers-AreEntries [] servers' h = subst AreEntries (ok-eq h) tt
normalize_servers-AreEntries (s ∷ servers) servers' h =
    let (entry, first, h1) = >>=-eq-ok (normalize_entry s.exec) _ h in
    let (rest, later, h2) = >>=-eq-ok (normalize_servers servers) _ h1 in
    subst AreEntries (ok-eq h2)
      (normalize_entry-IsEntry s.exec entry first, normalize_servers-AreEntries servers rest later)

normalize_servers-entries :
    (servers : List ServerConfig) → AreEntries servers → normalize_servers servers ≡ ok servers
unfolding normalize_servers
normalize_servers-entries [] h = refl
normalize_servers-entries (s ∷ servers) (h, hs) =
    rw (normalize_entry-entry s.exec h, normalize_servers-entries servers hs) refl

pub normalize_entries-AreEntries :
    (cfg cfg' : Config) → normalize_entries cfg ≡ ok cfg' → AreEntries cfg'.servers
unfolding normalize_entries
normalize_entries-AreEntries cfg cfg' h =
    let (servers, e, h1) = >>=-eq-ok (normalize_servers cfg.servers) _ h in
    subst (λ (c : Config). AreEntries c.servers) (ok-eq h1)
      (normalize_servers-AreEntries cfg.servers servers e)

-- When the entries of a configuration can be normalised, they have no white space and no `$` in
-- front afterwards, and to normalise them again changes nothing.
pub normalize_entries_idem :
    (cfg cfg' : Config)
    → normalize_entries cfg ≡ ok cfg'
    → AreEntries cfg'.servers × (normalize_entries cfg' ≡ ok cfg')
unfolding normalize_entries
normalize_entries_idem cfg cfg' h =
    let entries = normalize_entries-AreEntries cfg cfg' h in
    (entries, rw (normalize_servers-entries cfg'.servers entries) refl)
