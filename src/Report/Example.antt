-- ===== src/Report/Example.antt =====
-- A report with a dead symbol and three smells, two of them of one kind, for the tests.
use sensez.Prelude.{ℕ, [], ◌∷◌}
use sensez.Report
use sensez.Report.{AnalysisReport, SmellFinding, DeadCodeFinding, warning, high, Severity}
use sensez.Report.Kinds
use sensez.Report.Kinds.{SmellKind}

abbrev pub smell : SmellKind → ℕ → SmellFinding
smell kind metric = record {
  action = warning;
  kind = kind;
  message = "";
  file = "a.py";
  line = 1;
  end_line = 9;
  lines = [];
  symbol = "f";
  severity = Severity.warning;
  metric = metric;
  threshold = 10;
  reason = "";
}

abbrev pub dead : DeadCodeFinding
dead = record {
  action = warning;
  module_name = "m";
  symbol = "f";
  kind = "function";
  confidence = high;
  file = "a.py";
  line = 3;
  reason = "";
}

abbrev pub report : AnalysisReport
report = record {
  meta = record {
    mode = Report.full;
    cycles_total = 0;
    dead_code_total = 0;
    duplication_total = 0;
    boundaries_total = 0;
    smells_total = 0;
    smell_totals = [];
  };
  cycles = [];
  dead_code = dead ∷ [];
  boundaries = [];
  duplication = [];
  smells =
      smell Kinds.long_function 40 ∷ smell Kinds.god_module 3 ∷ smell Kinds.long_function 70 ∷ [];
}
