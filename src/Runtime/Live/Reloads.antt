-- ===== src/Runtime/Live/Reloads.antt =====
-- runtime.rs and main.rs: what reloads keep.
use ferrumdns.Base.{
  ◌≡◌, refl, sym, ◌∙◌, arith, inl, inr, Option-cases, Option, none, some, List, [], ◌∷◌, Text,
  subst, Result, ok, err, some-eq, All, ℕ, result-cases,
}
use ferrumdns.Config.Load.{Files, load_file}
use ferrumdns.Config.Types.{Config}
use ferrumdns.Runtime.Build.{Runtime, Outside, build, build_checked}
use ferrumdns.Config.Load.Ready.{load_file-Answers}
use ferrumdns.Config.Lift.{normalize_entries}
use ferrumdns.Runtime.Graph.Total.{IsKnown, validate_plugin_graph-Answers}
use ferrumdns.Runtime.Graph.{Edges, Depths, done, validate_plugin_graph}
use ferrumdns.Runtime.Live.{
  swap_checked, after_build, after_load, Reloaded, reload_file, reload_loop,
}
use ferrumdns.Runtime.Live.Swaps.{SameSettings, IsRefused, reload_file-cases}

-- The order in which a hash map gives its keys is one of keys that it has.
abbrev pub IsOrder : Outside → Type 0
IsOrder O = (edges : Edges) → All (IsKnown edges) (O.order edges)

module _ {C S : Type 0} where
  -- The runtime that is served after some reloads: each that is refused keeps the one before, and
  -- each other one brings what is built of the file, as it is at that reload.
  pub data Comes (path : Text) : List (Files × Outside) → Runtime C S → Runtime C S → Type 0 where
    finished : {rt : Runtime C S} → Comes path [] rt rt
    refused :
        {F : Files} {O : Outside} {signals : List (Files × Outside)} {rt rt' : Runtime C S}
        → IsRefused F O path rt
        → Comes path signals rt rt'
        → Comes path ((F, O) ∷ signals) rt rt'
    swapped :
        {F : Files} {O : Outside} {signals : List (Files × Outside)} {rt rt' : Runtime C S}
        → (cfg : Config) (new : Runtime C S) → load_file F path ≡ some (ok cfg)
        → build O cfg ≡ some (ok new)
        → SameSettings rt new
        → Comes path signals new rt'
        → Comes path ((F, O) ∷ signals) rt rt'

  no_runtime : {rt : Runtime C S} → ◌≡◌ {A = Option (Runtime C S)} none (some rt) → ⊥
  no_runtime h = ground arith

  -- After any reloads, the runtime that is served comes of them one by one. A reload is refused, and
  -- leaves the runtime that is served, only when the file as it is then does not load, or no runtime
  -- is built of it, or the one that is built has other servers, another API or another logging.
  -- Each other reload brings the runtime that is built of the file as it is then, with the same
  -- servers, API and logging. So the last runtime has these settings of the first one.
  pub reload_loop-Comes :
      (signals : List (Files × Outside)) (path : Text) (rt rt' : Runtime C S)
      → reload_loop signals path rt ≡ some rt'
      → Comes path signals rt rt' × SameSettings rt rt'
  unfolding reload_loop
  reload_loop-Comes [] path rt rt' h =
      subst (λ (x : Runtime C S). Comes path [] rt x × SameSettings rt x) (some-eq rt rt' h)
        (finished, record { servers = refl; api = refl; log = refl })
  reload_loop-Comes ((F, O) ∷ signals) path rt rt' h =
      elim (Option-cases (reload_file F O path rt)) [
        | inl none_left ↦ absurd (no_runtime (rw (none_left, reload_loop) at h))
        | inr ((r, rt1), left) ↦
            let (rest, same) =
              reload_loop-Comes signals path rt1 rt' (rw (left, reload_loop) at h) in
            elim (reload_file-cases F O path rt r rt1 left) [
              | inl (kept, why) ↦
                  let (rest, same) : Comes path signals rt rt' × SameSettings rt rt' =
                    subst (λ (x : Runtime C S). Comes path signals x rt' × SameSettings x rt')
                      (sym kept) (rest, same) in
                  (refused why rest, same)
              | inr (cfg, loaded, made, first') ↦ (
                swapped cfg rt1 loaded made first' rest,
                record {
                  servers = first'.servers ∙ same.servers;
                  api = first'.api ∙ same.api;
                  log = first'.log ∙ same.log;
                },
              )
            ]
      ]

  build-Answers :
      (O : Outside) (cfg : Config) → IsOrder O → (r : Result (Runtime C S)) × (build O cfg ≡ some r)
  unfolding build
  build-Answers O cfg known = elim (result-cases (normalize_entries cfg)) [
    | inl (e, bad) ↦ (err e, rw (build, bad) refl)
    | inr (cfg', good) ↦
        let (r, visited) = validate_plugin_graph-Answers cfg'.plugins O.order known in
        graph_done r good visited
  ]
    where
      graph_done :
          {cfg' : Config} (r : Result (ℕ × Depths))
          → normalize_entries cfg ≡ ok cfg'
          → validate_plugin_graph cfg'.plugins O.order ≡ done r
          → (r : Result (Runtime C S)) × (build O cfg ≡ some r)
      graph_done (err e) good visited = (err e, rw (build, good, visited) refl)
      graph_done {cfg' = cfg'} (ok d) good visited =
          (build_checked O cfg', rw (build, good, visited) refl)

  abbrev IsLeft : Reloaded C S → Type 0
  IsLeft reloaded = (r : Result (Unit {0})) × (rt' : Runtime C S) × (reloaded ≡ some (r, rt'))

  after_build-IsLeft :
      (rt : Runtime C S) (r : Result (Runtime C S)) → IsLeft (after_build rt (some r))
  after_build-IsLeft rt (err e) = (err e, rt, refl)
  after_build-IsLeft rt (ok new) = ((swap_checked rt new).0, (swap_checked rt new).1, refl)

  after_load-IsLeft :
      (O : Outside) (rt : Runtime C S) (r : Result Config)
      → IsOrder O
      → IsLeft (after_load O rt (some r))
  after_load-IsLeft O rt (err e) known = (err e, rt, refl)
  after_load-IsLeft O rt (ok cfg) known =
      let (r, made) = build-Answers O cfg known in
      subst (λ (m : Option (Result (Runtime C S))). IsLeft (after_build rt m)) (sym made)
        (after_build-IsLeft rt r)

  reload_file-IsLeft :
      (F : Files) (O : Outside) (path : Text) (rt : Runtime C S)
      → IsOrder O
      → IsLeft (reload_file F O path rt)
  unfolding reload_file
  reload_file-IsLeft F O path rt known =
      let (r, loaded) = load_file-Answers F path in
      subst (λ l. IsLeft (after_load O rt l)) (sym loaded) (after_load-IsLeft O rt r known)

  -- Any reloads leave a runtime to be served, if each build takes the plugins of the call graph in
  -- some order: no load and no build meets the bound on its nested calls.
  pub reload_loop-Answers :
      (signals : List (Files × Outside)) (path : Text) (rt : Runtime C S)
      → All (λ (s : Files × Outside). IsOrder s.1) signals
      → (rt' : Runtime C S) × (reload_loop signals path rt ≡ some rt')
  unfolding reload_loop
  reload_loop-Answers [] path rt h = (rt, refl)
  reload_loop-Answers ((F, O) ∷ signals) path rt (known, h) =
      let (r, rt1, left) = reload_file-IsLeft F O path rt known in
      rw (left, reload_loop) (reload_loop-Answers signals path rt1 h)
