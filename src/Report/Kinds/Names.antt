-- ===== src/Report/Kinds/Names.antt =====
-- The names of the smell kinds tell them apart, and so does their order.
use sensez.Prelude.{
  true, some, List, [], ◌∷◌, ◌≡◌, ◌↔◌, refl, sym, ap, ◌∙◌, find, get_elem?, eq_of_some, Bool-cases,
  inl, inr, string_eq, nat_eq, Eq, nat_beq, nat_beq_iff, ◌==◌,
}
use sensez.Report.Kinds.{
  SmellKind, as_str, rank, boolean_blindness, data_clump, deep_nesting, defensive_fallback,
  dependency_reimplementation, divergent_abstraction, divergent_change, feature_envy,
  fixture_echo_assertion, god_module, heavy_nested_function, high_cognitive_complexity,
  high_complexity, implicit_schema, inappropriate_intimacy, large_class, literal_membership,
  long_function, long_parameter_list, loose_typing, magic_string_default, magic_numbers,
  message_chain, mocked_subject, mutated_parameter, name_promise_mismatch, narrating_code,
  nested_loop, nested_ternary, n_plus_one_call, reassigned_parameter, redundant_validation,
  redundant_wrapper_chain, refused_bequest, repeated_iteration, shotgun_surgery_hazard,
  sibling_helper_redefinition, split_variable, stub_shipped, sort_in_loop, swallowed_error_sentinel,
  too_many_returns, tuple_packing, type_escape_cast, unnecessary_nested_if, weak_test_oracle,
}

-- Every kind, in declaration order.
abbrev pub all : List SmellKind
all =
    boolean_blindness ∷ data_clump ∷ deep_nesting ∷ defensive_fallback ∷ dependency_reimplementation
    ∷ divergent_abstraction ∷ divergent_change ∷ feature_envy ∷ fixture_echo_assertion ∷ god_module
    ∷ heavy_nested_function ∷ high_cognitive_complexity ∷ high_complexity ∷ implicit_schema
    ∷ inappropriate_intimacy ∷ large_class ∷ literal_membership ∷ long_function
    ∷ long_parameter_list ∷ loose_typing ∷ magic_string_default ∷ magic_numbers ∷ message_chain
    ∷ mocked_subject ∷ mutated_parameter ∷ name_promise_mismatch ∷ narrating_code ∷ nested_loop
    ∷ nested_ternary ∷ n_plus_one_call ∷ reassigned_parameter ∷ redundant_validation
    ∷ redundant_wrapper_chain ∷ refused_bequest ∷ repeated_iteration ∷ shotgun_surgery_hazard
    ∷ sibling_helper_redefinition ∷ split_variable ∷ stub_shipped ∷ sort_in_loop
    ∷ swallowed_error_sentinel ∷ too_many_returns ∷ tuple_packing ∷ type_escape_cast
    ∷ unnecessary_nested_if ∷ weak_test_oracle ∷ []

find-as_str : (k : SmellKind) → find (λ j. as_str j == as_str k) all ≡ some k
unfolding find as_str
find-as_str boolean_blindness = refl
find-as_str _ = refl

-- Different kinds have different names.
pub as_str-injective : (j k : SmellKind) → as_str j ≡ as_str k → j ≡ k
as_str-injective j k e =
    eq_of_some (sym (find-as_str j) ∙ ap (λ n. find (λ i. as_str i == n) all) e ∙ find-as_str k)

get_elem?-rank : (k : SmellKind) → get_elem? all (rank k) ≡ some k
unfolding rank
get_elem?-rank boolean_blindness = refl
get_elem?-rank _ = refl

rank-injective : (j k : SmellKind) → rank j ≡ rank k → j ≡ k
rank-injective j k e =
    let same : some j ≡ some k = sym (get_elem?-rank j) ∙ ap (get_elem? all) e ∙ get_elem?-rank k in
    eq_of_some same

pub kind_iff : (j k : SmellKind) → (nat_beq (rank j) (rank k) ≡ true) ↔ (j ≡ k)
kind_iff j k = (
  λ h. rank-injective j k ((nat_beq_iff (rank j) (rank k)).0 h),
  λ e. (nat_beq_iff (rank j) (rank k)).1 (ap rank e),
)

-- The derived `Eq`.
instance abbrev pub smell_kind_eq : Eq SmellKind
smell_kind_eq = record { test = λ j k. nat_beq (rank j) (rank k); decides = kind_iff }

-- Comparing the names is comparing the kinds.
pub ==-as_str : (j k : SmellKind) → (as_str j == as_str k) ≡ (j == k)
==-as_str j k = elim (Bool-cases (j == k)) [
  | inl e ↦ (string_eq.decides (as_str j) (as_str k)).1 (ap as_str ((kind_iff j k).0 e)) ∙ sym e
  | inr e ↦ elim (Bool-cases (as_str j == as_str k)) [
    | inl s ↦
        let same = as_str-injective j k ((string_eq.decides (as_str j) (as_str k)).0 s) in
        s ∙ sym ((kind_iff j k).1 same)
    | inr s ↦ s ∙ sym e
  ]
]
