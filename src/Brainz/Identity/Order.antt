-- ===== src/Brainz/Identity/Order.antt =====
-- What the identity of a cycle and of a clone class does not depend on.
use sensez.Prelude.{ℕ, ◌≡◌, refl, ◌∙◌, String, List, map, length, sort_text-Perm, arith}
use mathlib.Core.List.{Permᴰ}
use sensez.Report.{CycleFinding, CloneClass, CloneOccurrence}
use sensez.Brainz.Identity.{cycle_key, clone_key}

length-Perm : {xs ys : List String} → Permᴰ xs ys → length xs ≡ length ys
length-Perm Permᴰ.nil = refl
length-Perm (Permᴰ.cons e p) = omega (arith, length-Perm p)
length-Perm (Permᴰ.swap e f) = refl
length-Perm (Permᴰ.trans p q) = length-Perm p ∙ length-Perm q

-- Two cycles through the same modules in any order have one print, and so have two clone classes
-- whose occurrences lie in the same files, in any order and at any rows.
pub keys-Perm :
    (digest : List String → ℕ) (a b : CycleFinding) (c d : CloneClass)
    → Permᴰ a.modules b.modules
    → Permᴰ
        (map (λ (o : CloneOccurrence). o.file) c.occurrences)
        (map (λ (o : CloneOccurrence). o.file) d.occurrences)
    → (cycle_key digest a ≡ cycle_key digest b) × (clone_key digest c ≡ clone_key digest d)
unfolding cycle_key clone_key
keys-Perm digest a b c d p q =
    let sorted = sort_text-Perm p in
    let files = sort_text-Perm q in let arity = length-Perm q in (cc, cc)
