-- ===== src/Tests/Bindings.antt =====
-- src/agenttrace/replay/bindings.py on a small dictionary.
use atcr_agent_trace_collect.Prelude.Texts.{chars}
use atcr_agent_trace_collect.Prelude.{String, ◌≡◌, refl, [], ◌∷◌, arith, eq_iff}
use atcr_agent_trace_collect.Prelude.Names.{distinct, contains}
use atcr_agent_trace_collect.Json.{Fields, str, dict, end, entry, lookup}
use atcr_agent_trace_collect.Replay.Bindings.{Bindings, alternatives, rewrite_text, add}
use atcr_agent_trace_collect.Replay.Bindings.Rewriting.{Rewritten, rewrite_text-Rewritten}
use atcr_agent_trace_collect.Replay.Bindings.Learned.{IsUsable, rewrite_text-add}
use atcr_agent_trace_collect.Replay.Bindings.Learning.{learn_from_results}
use atcr_agent_trace_collect.Replay.Bindings.Taught.{Teaches, HasLearned}
use atcr_agent_trace_collect.Replay.Bindings.Results.{learn_from_results-learns}

-- Two captured paths, one inside the other.
abbrev two_paths : Bindings
two_paths = ("/w", "/tmp/run/w") ∷ ("/w/in.txt", "/tmp/run/in.txt") ∷ []

two_paths-IsUsable : IsUsable two_paths
unfolding distinct contains
two_paths-IsUsable = record { unique = refl; no_empty = (ground arith, (ground arith, tt)) }

-- The longer path wins, and a replaced path is not searched again.
rewrites_longest : rewrite_text two_paths "cat /w/in.txt /w/b" ≡ "cat /tmp/run/in.txt /tmp/run/w/b"
unfolding rewrite_text
rewrites_longest = refl

rewrite_text-Rewritten_example :
    Rewritten
      (alternatives two_paths)
      (chars "cat /w/in.txt /w/b")
      (chars (rewrite_text two_paths "cat /w/in.txt /w/b"))
rewrite_text-Rewritten_example =
    rewrite_text-Rewritten two_paths "cat /w/in.txt /w/b" two_paths-IsUsable.no_empty

rewrite_text-add_example : rewrite_text (add "p-17" "p-42" two_paths) "p-17" ≡ "p-42"
rewrite_text-add_example =
    rewrite_text-add "p-17" "p-42" two_paths two_paths-IsUsable
      (λ h. ground (arith, eq_iff "p-17" "", h)) (λ h. ground (arith, eq_iff "p-42" "", h))
      (λ h. ground (arith, eq_iff "p-17" "p-42", h))

abbrev result : String → String → Fields
result process status =
    entry "details" (dict (entry "processId" (str process) (entry "status" (str status) end))) end

-- Only the dynamic key is learnt.
learns_process :
    learn_from_results
      (λ keys. keys)
      (dict (result "p-17" "ok"))
      (dict (result "p-42" "fail"))
      ""
      []
    ≡ ("p-17", "p-42") ∷ []
unfolding learn_from_results lookup add
learns_process = refl

abbrev learnt : Bindings
learnt =
    learn_from_results (λ keys. keys) (dict (result "p-17" "ok")) (dict (result "p-42" "fail")) ""
      two_paths

learn_from_results-learns_example :
    IsUsable learnt
    × HasLearned
        (Teaches (dict (result "p-17" "ok")) (dict (result "p-42" "fail")) "")
        two_paths
        learnt
learn_from_results-learns_example =
    learn_from_results-learns (λ keys. keys) (λ k l. refl) (dict (result "p-17" "ok"))
      (dict (result "p-42" "fail")) "" two_paths two_paths-IsUsable
