-- ===== src/Report/Kinds.antt =====
-- src/report/smell_kind.rs: the design-smell families and their names.
pub mod Names
use sensez.Prelude.{ℕ, String}

pub data SmellKind : Type 0 where
  boolean_blindness data_clump deep_nesting defensive_fallback dependency_reimplementation :
      SmellKind
  divergent_abstraction divergent_change feature_envy fixture_echo_assertion god_module : SmellKind
  heavy_nested_function high_cognitive_complexity high_complexity implicit_schema : SmellKind
  inappropriate_intimacy large_class literal_membership long_function long_parameter_list :
      SmellKind
  loose_typing magic_string_default magic_numbers message_chain mocked_subject : SmellKind
  mutated_parameter name_promise_mismatch narrating_code nested_loop nested_ternary : SmellKind
  n_plus_one_call reassigned_parameter redundant_validation redundant_wrapper_chain : SmellKind
  refused_bequest repeated_iteration shotgun_surgery_hazard sibling_helper_redefinition : SmellKind
  split_variable stub_shipped sort_in_loop swallowed_error_sentinel too_many_returns : SmellKind
  tuple_packing type_escape_cast unnecessary_nested_if weak_test_oracle : SmellKind

unfoldable pub as_str : SmellKind → String
as_str boolean_blindness = "boolean_blindness"
as_str data_clump = "data_clump"
as_str deep_nesting = "deep_nesting"
as_str defensive_fallback = "defensive_fallback"
as_str dependency_reimplementation = "dependency_reimplementation"
as_str divergent_abstraction = "divergent_abstraction"
as_str divergent_change = "divergent_change"
as_str feature_envy = "feature_envy"
as_str fixture_echo_assertion = "fixture_echo_assertion"
as_str god_module = "god_module"
as_str heavy_nested_function = "heavy_nested_function"
as_str high_cognitive_complexity = "high_cognitive_complexity"
as_str high_complexity = "high_complexity"
as_str implicit_schema = "implicit_schema"
as_str inappropriate_intimacy = "inappropriate_intimacy"
as_str large_class = "large_class"
as_str literal_membership = "literal_membership"
as_str long_function = "long_function"
as_str long_parameter_list = "long_parameter_list"
as_str loose_typing = "loose_typing"
as_str magic_string_default = "magic_string_default"
as_str magic_numbers = "magic_numbers"
as_str message_chain = "message_chain"
as_str mocked_subject = "mocked_subject"
as_str mutated_parameter = "mutated_parameter"
as_str name_promise_mismatch = "name_promise_mismatch"
as_str narrating_code = "narrating_code"
as_str nested_loop = "nested_loop"
as_str nested_ternary = "nested_ternary"
as_str n_plus_one_call = "n_plus_one_call"
as_str reassigned_parameter = "reassigned_parameter"
as_str redundant_validation = "redundant_validation"
as_str redundant_wrapper_chain = "redundant_wrapper_chain"
as_str refused_bequest = "refused_bequest"
as_str repeated_iteration = "repeated_iteration"
as_str shotgun_surgery_hazard = "shotgun_surgery_hazard"
as_str sibling_helper_redefinition = "sibling_helper_redefinition"
as_str split_variable = "split_variable"
as_str stub_shipped = "stub_shipped"
as_str sort_in_loop = "sort_in_loop"
as_str swallowed_error_sentinel = "swallowed_error_sentinel"
as_str too_many_returns = "too_many_returns"
as_str tuple_packing = "tuple_packing"
as_str type_escape_cast = "type_escape_cast"
as_str unnecessary_nested_if = "unnecessary_nested_if"
as_str weak_test_oracle = "weak_test_oracle"

-- Declaration order, as the derived `Ord` compares.
unfoldable pub rank : SmellKind → ℕ
rank boolean_blindness = 0
rank data_clump = 1
rank deep_nesting = 2
rank defensive_fallback = 3
rank dependency_reimplementation = 4
rank divergent_abstraction = 5
rank divergent_change = 6
rank feature_envy = 7
rank fixture_echo_assertion = 8
rank god_module = 9
rank heavy_nested_function = 10
rank high_cognitive_complexity = 11
rank high_complexity = 12
rank implicit_schema = 13
rank inappropriate_intimacy = 14
rank large_class = 15
rank literal_membership = 16
rank long_function = 17
rank long_parameter_list = 18
rank loose_typing = 19
rank magic_string_default = 20
rank magic_numbers = 21
rank message_chain = 22
rank mocked_subject = 23
rank mutated_parameter = 24
rank name_promise_mismatch = 25
rank narrating_code = 26
rank nested_loop = 27
rank nested_ternary = 28
rank n_plus_one_call = 29
rank reassigned_parameter = 30
rank redundant_validation = 31
rank redundant_wrapper_chain = 32
rank refused_bequest = 33
rank repeated_iteration = 34
rank shotgun_surgery_hazard = 35
rank sibling_helper_redefinition = 36
rank split_variable = 37
rank stub_shipped = 38
rank sort_in_loop = 39
rank swallowed_error_sentinel = 40
rank too_many_returns = 41
rank tuple_packing = 42
rank type_escape_cast = 43
rank unnecessary_nested_if = 44
rank weak_test_oracle = 45
