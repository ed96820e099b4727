-- ===== src/Lsp/Server/View.antt =====
-- What the client shows: the last publication of each document.
use sensez.Prelude.{
  ◌≡◌, refl, ap, ◌∙◌, String, Option, none, some, List, [], ◌∷◌, ◌++◌, arith, if◌then◌else◌, lookup,
  contains, string_eq, nat_eq, ◌==◌, IsKeyed, contains-retain, contains-keys,
}
use sensez.Lsp.Schedule.{Workspace}
use sensez.Lsp.Server.{
  Message, status, info, log, health, publish, ScanResult, Scans, notices, summaries, publish_all,
  clear_all, report_messages, settle, apply_result,
}
use sensez.Lsp.Server.Soundness.Operations.{apply_result_eq}

module _ {D H : Type 0} where
  -- The diagnostics shown for `uri` after `messages`, where `before` was shown first.
  unfoldable pub shown : String → List D → List (Message D H) → List D
  shown uri before [] = before
  shown uri before (publish u ds ∷ rest) = shown uri (if u == uri then ds else before) rest
  shown uri before (status _ _ ∷ rest) = shown uri before rest
  shown uri before (info _ ∷ rest) = shown uri before rest
  shown uri before (log _ _ ∷ rest) = shown uri before rest
  shown uri before (health _ ∷ rest) = shown uri before rest

  pub shown-append :
      (uri : String) (before : List D) (xs ys : List (Message D H))
      → shown uri before (xs ++ ys) ≡ shown uri (shown uri before xs) ys
  unfolding shown
  shown-append uri before [] ys = refl
  shown-append uri before (publish u ds ∷ xs) ys =
      shown-append uri (if u == uri then ds else before) xs ys
  shown-append uri before (status _ _ ∷ xs) ys = shown-append uri before xs ys
  shown-append uri before (info _ ∷ xs) ys = shown-append uri before xs ys
  shown-append uri before (log _ _ ∷ xs) ys = shown-append uri before xs ys
  shown-append uri before (health _ ∷ xs) ys = shown-append uri before xs ys

  shown-summaries :
      (uri : String) (before : List D) (h : Option H) → shown uri before (summaries h) ≡ before
  unfolding shown
  shown-summaries uri before none = refl
  shown-summaries uri before (some h) = refl

-- The value of a document in the published list, or what was shown before.
abbrev pub over : {D : Type 0} → List (String × List D) → String → List D → List D
over ds uri before = elim (lookup uri ds) [ none ↦ before | some now ↦ now ]

module _ {D : Type 0} (H : Type 0) where
  shown-notices :
      (uri : String) (before : List D) (n : Option String)
      → shown uri before (notices {H = H} n) ≡ before
  unfolding shown
  shown-notices uri before none = refl
  shown-notices uri before (some text) = refl

  shown-status :
      (uri : String) (before : List D) (root state : String)
      → let idle : Message D H = status root state in shown uri before (idle ∷ []) ≡ before
  unfolding shown
  shown-status uri before root state = refl

  shown-clear_all :
      (uri : String) (before : List D) (us : List String)
      → shown uri before (clear_all {H = H} us) ≡ (if contains uri us then [] else before)
  unfolding shown contains
  shown-clear_all uri before [] = refl
  shown-clear_all uri before (u ∷ us) =
      shown-clear_all uri (if u == uri then [] else before) us ∙ ground arith

  shown-publish_all :
      (uri : String) (before : List D) (ds : List (String × List D))
      → IsKeyed ds
      → shown uri before (publish_all {H = H} ds) ≡ over ds uri before
  unfolding shown lookup
  shown-publish_all uri before [] h = refl
  shown-publish_all uri before ((u, d) ∷ ds) h =
      shown-publish_all uri (if u == uri then d else before) ds h.1
      ∙ ground (arith, h.0, string_eq.decides u uri)

  shown-report_messages :
      (uri : String) (before : List D) (r : ScanResult D H) (published : List String)
      → IsKeyed r.diagnostics
      → shown uri before (report_messages r published)
        ≡ over r.diagnostics uri (if contains uri published then [] else before)
  unfolding report_messages
  shown-report_messages uri before r published keyed =
      simp
        (
          shown-append, shown-notices, shown-clear_all, shown-publish_all, shown-summaries,
          shown-status, contains-retain, contains-keys, keyed,
        )
        ground arith

-- A current result without error leaves on the screen exactly its own diagnostics: each document
-- that it names shows what it says, each other document that this workspace had published is
-- cleared, and every other document shows what it showed before.
pub apply_result-shown :
    {D H : Type 0} (r : ScanResult D H) (s : Scans D H) (w : Workspace) (uri : String)
    → lookup r.root s.workspaces ≡ some w
    → r.generation ≡ w.generation
    → r.error ≡ none
    → IsKeyed r.diagnostics
    → shown uri [] (apply_result r s).sent
      ≡ over r.diagnostics uri (if contains uri w.published then [] else shown uri [] s.sent)
unfolding settle
apply_result-shown {H = H} r s w uri known current fine keyed =
    let messages : (settle r w).1 ≡ report_messages r w.published =
      ground (arith, known, current, fine) in
    ap (λ t. shown uri [] t.sent) (apply_result_eq r s known)
    ∙ shown-append uri [] s.sent (settle r w).1
    ∙ ap (shown uri (shown uri [] s.sent)) messages
    ∙ shown-report_messages H uri (shown uri [] s.sent) r w.published keyed
