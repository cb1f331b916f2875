-- ===== src/Tests/Serving.antt =====
-- Runs of the theorems on the server, the sequences and the contexts.
use ferrumdns.Base.{
  ℕ, ◌≡◌, refl, true, none, some, [], ◌∷◌, Text, codes, teq, ok, if◌then◌else◌, Bool-cases, inl,
  inr, subst, sym, ◌∙◌, arith, some-eq,
}
use ferrumdns.Dnsutil.{min_ttl, record_cname}
use ferrumdns.Context.Rebind.{
  in_class_of, finalize_response, rewrite_name, response_for_query, rebind_response, with_aliases,
  is_alias,
}
use ferrumdns.Context.Refresh.{restarted, clone_for_lazy-begin_pipeline}
use ferrumdns.Context.Reply.{IsBoundTo, finalize_response-rewrite_name}
use ferrumdns.Context.{QueryContext, begin_pipeline, has_resp, set_response, clone_for_lazy}
use ferrumdns.Dns.Rcode
use ferrumdns.Dns.{Message}
use ferrumdns.Dnsutil.{classify_incoming}
use ferrumdns.Metrics.{new_metrics}
use ferrumdns.Plugin.{Action}
use ferrumdns.Sequence.Deferred.{IsDeferred, quiet, run-IsDeferred}
use ferrumdns.Sequence.Ends.{IsSettled, IsSettling, run-IsSettled}
use ferrumdns.Sequence.Run.{run}
use ferrumdns.Server.Handle.{Ending, finished, timed_out, Pipelines, complete, handle}
use ferrumdns.Server.Outcome.{
  IsCounted, context_of, KeepsOriginal, handle-IsCounted, handle-IsBound, handle-servfail,
}
use ferrumdns.Tests.Fixtures.{
  question, passing, request, reply, crates, no_regexes, host_networks, start, answering, registry,
  main_sequence,
}

-- One pipeline that answers, and one that is cut off.
abbrev pub answers : QueryContext → ℕ → Ending ℕ
answers ctx s = finished (ok Action.accept) (record ctx { response = some reply }) s

abbrev stalls : QueryContext → ℕ → Ending ℕ
stalls ctx s = timed_out ctx s

abbrev pub pipelines : Pipelines ℕ
pipelines entry =
    if teq entry (codes "main")
    then some answers
    else if teq entry (codes "slow")
    then some stalls
    else none

served_result : (handle crates pipelines (codes "main") 40 start 0 new_metrics).result ≡ ok tt
unfolding handle classify_incoming complete teq
served_result = refl

handle-IsCounted_example :
    IsCounted
      (has_resp (handle crates pipelines (codes "main") 40 start 0 new_metrics).context)
      40
      new_metrics
      (handle crates pipelines (codes "main") 40 start 0 new_metrics).metrics
handle-IsCounted_example =
    handle-IsCounted crates pipelines (codes "main") 40 start 0 new_metrics refl served_result

pipelines-KeepsOriginal : KeepsOriginal pipelines
pipelines-KeepsOriginal entry p ctx s h = elim (Bool-cases (teq entry (codes "main"))) [
  | inl main ↦
      subst (λ f. (context_of (f ctx s)).original ≡ ctx.original)
        (some-eq answers p (sym (rw (pipelines, main) refl) ∙ h)) refl
  | inr other ↦ elim (Bool-cases (teq entry (codes "slow"))) [
    | inl slow ↦
        subst (λ f. (context_of (f ctx s)).original ≡ ctx.original)
          (some-eq stalls p (sym (rw (pipelines, other, slow) refl) ∙ h)) refl
    | inr absent ↦ absurd (ground arith)
  ]
]

abbrev served : Message
served = record reply { recursion_desired = true }

handle-IsBound_example : IsBoundTo request served
unfolding handle classify_incoming complete finalize_response response_for_query rebind_response
    with_aliases begin_pipeline teq
handle-IsBound_example =
    handle-IsBound crates pipelines (codes "main") 40 start 0 new_metrics served
      pipelines-KeepsOriginal refl served_result refl

handle-servfail_example :
    ((handle crates pipelines (codes "slow") 40 start 0 new_metrics).result ≡ ok tt)
    × ((r : Message) × ((handle crates pipelines
            (codes "slow")
            40
            start
            0
            new_metrics).context.response
          ≡ some r)
        × (r.response_code ≡ Rcode.serv_fail))
unfolding classify_incoming teq
handle-servfail_example =
    handle-servfail crates pipelines (codes "slow") 40 start 0 new_metrics stalls refl refl tt

run-IsDeferred_example :
    IsDeferred registry
      (run crates no_regexes host_networks registry main_sequence start 0)
      (run crates no_regexes host_networks (quiet registry) main_sequence start 0)
run-IsDeferred_example =
    run-IsDeferred crates no_regexes host_networks registry main_sequence start 0

registry-IsSettling : IsSettling registry
registry-IsSettling tag p ctx s h = elim (Bool-cases (teq tag (codes "cache"))) [
  | inl cache ↦
      subst (λ f. IsSettled (f ctx s).0) (some-eq passing p (sym (rw (registry, cache) refl) ∙ h))
        tt
  | inr other ↦ elim (Bool-cases (teq tag (codes "answer"))) [
    | inl answer ↦
        subst (λ f. IsSettled (f ctx s).0)
          (some-eq answering p (sym (rw (registry, other, answer) refl) ∙ h)) tt
    | inr absent ↦ absurd (ground arith)
  ]
]

run-IsSettled_example :
    IsSettled (run crates no_regexes host_networks registry main_sequence start 0).0
run-IsSettled_example =
    run-IsSettled crates no_regexes host_networks registry main_sequence start 0 registry-IsSettling

-- The run above makes its one cache write.
run_writes : (run crates no_regexes host_networks registry main_sequence start 0).2 ≡ 1
unfolding run teq
run_writes = refl

abbrev alias : Text × Text
alias = (codes "a.example", codes "www.example")

finalize_response-rewrite_name_example :
    (r : Message) × ((finalize_response crates
        (set_response (rewrite_name crates start (codes "b.example")) reply)).response
      ≡ some r)
    × (r.queries ≡ request.queries)
    × (r.answers
        ≡ in_class_of crates request.queries
            (record_cname (codes "www.example") (min_ttl reply) (codes "b.example"))
          ∷ reply.answers)
unfolding is_alias teq
finalize_response-rewrite_name_example =
    finalize_response-rewrite_name crates start question [] (codes "b.example") reply refl refl refl
      refl refl refl

-- A question that is not the client's, a mark, and a trace that is on.
abbrev prepared : QueryContext
prepared = record start { query = record request { id = 9 }; marks = 3 ∷ []; trace_enabled = true }

abbrev changed : QueryContext
changed = record (begin_pipeline prepared (codes "main")) { marks = []; response = some reply }

clone_for_lazy-begin_pipeline_example : clone_for_lazy changed ≡ restarted prepared (codes "main")
unfolding begin_pipeline
clone_for_lazy-begin_pipeline_example =
    clone_for_lazy-begin_pipeline prepared (codes "main") changed refl
      (refl, refl, refl, refl, refl)
