-- ===== src/Compliance/Objectives.antt =====
-- The rows of the tables of Annex A: crates/evidence-core/src/compliance/applicability.rs,
-- objective.rs and objectives_table.rs.
use evidence.Prelude.{Str, codes, List, [], ◌∷◌, ◌++◌}
use evidence.Policy.{Dal}

pub data Applicability : Type 0 where
  not_applicable required required_with_independence : Applicability

-- The array of four is its entries, for the levels A to D in turn.
pub record Objective : Type 0 where
  pub id : Str
  pub table : Str
  pub title : Str
  pub applicability : Applicability × Applicability × Applicability × Applicability

abbrev pub applicability_for : Objective → Dal → Applicability
applicability_for obj Dal.a = obj.applicability.0
applicability_for obj Dal.b = obj.applicability.1
applicability_for obj Dal.c = obj.applicability.2
applicability_for obj Dal.d = obj.applicability.3

-- `NA`, `R` and `RI`
abbrev na : Applicability
na = Applicability.not_applicable

abbrev r : Applicability
r = Applicability.required

abbrev ri : Applicability
ri = Applicability.required_with_independence

abbrev table_a3 : List Objective
table_a3 =
    record {
      id = codes "A3-1";
      table = codes "Table A-3";
      title = codes "HLR comply with system requirements";
      applicability = (ri, ri, r, r);
    }
    ∷ record {
      id = codes "A3-2";
      table = codes "Table A-3";
      title = codes "HLR are accurate and consistent";
      applicability = (ri, ri, r, r);
    }
    ∷ record {
      id = codes "A3-3";
      table = codes "Table A-3";
      title = codes "HLR are compatible with target computer";
      applicability = (ri, ri, r, r);
    }
    ∷ record {
      id = codes "A3-4";
      table = codes "Table A-3";
      title = codes "HLR are verifiable";
      applicability = (ri, ri, r, r);
    }
    ∷ record {
      id = codes "A3-5";
      table = codes "Table A-3";
      title = codes "HLR conform to standards";
      applicability = (ri, ri, r, r);
    }
    ∷ record {
      id = codes "A3-6";
      table = codes "Table A-3";
      title = codes "HLR are traceable to system requirements";
      applicability = (ri, ri, r, r);
    }
    ∷ record {
      id = codes "A3-7";
      table = codes "Table A-3";
      title = codes "Algorithms are accurate";
      applicability = (ri, ri, r, na);
    }
    ∷ []

abbrev table_a4 : List Objective
table_a4 =
    record {
      id = codes "A4-1";
      table = codes "Table A-4";
      title = codes "LLR comply with HLR";
      applicability = (ri, ri, r, r);
    }
    ∷ record {
      id = codes "A4-2";
      table = codes "Table A-4";
      title = codes "LLR are accurate and consistent";
      applicability = (ri, ri, r, r);
    }
    ∷ record {
      id = codes "A4-3";
      table = codes "Table A-4";
      title = codes "LLR are compatible with target computer";
      applicability = (ri, ri, r, r);
    }
    ∷ record {
      id = codes "A4-4";
      table = codes "Table A-4";
      title = codes "LLR are verifiable";
      applicability = (ri, ri, r, r);
    }
    ∷ record {
      id = codes "A4-5";
      table = codes "Table A-4";
      title = codes "LLR conform to standards";
      applicability = (ri, ri, r, r);
    }
    ∷ record {
      id = codes "A4-6";
      table = codes "Table A-4";
      title = codes "LLR are traceable to HLR";
      applicability = (ri, ri, r, r);
    }
    ∷ record {
      id = codes "A4-7";
      table = codes "Table A-4";
      title = codes "LLR algorithms are accurate";
      applicability = (ri, ri, r, na);
    }
    ∷ record {
      id = codes "A4-8";
      table = codes "Table A-4";
      title = codes "LLR are compatible with target";
      applicability = (ri, ri, r, na);
    }
    ∷ []

abbrev table_a5 : List Objective
table_a5 =
    record {
      id = codes "A5-1";
      table = codes "Table A-5";
      title = codes "Architecture is compatible with HLR";
      applicability = (ri, ri, r, na);
    }
    ∷ record {
      id = codes "A5-2";
      table = codes "Table A-5";
      title = codes "Architecture is consistent";
      applicability = (ri, ri, r, na);
    }
    ∷ record {
      id = codes "A5-3";
      table = codes "Table A-5";
      title = codes "Architecture is compatible with target";
      applicability = (ri, ri, r, na);
    }
    ∷ record {
      id = codes "A5-4";
      table = codes "Table A-5";
      title = codes "Architecture is verifiable";
      applicability = (ri, ri, r, na);
    }
    ∷ record {
      id = codes "A5-5";
      table = codes "Table A-5";
      title = codes "Architecture conforms to standards";
      applicability = (ri, ri, r, na);
    }
    ∷ []

abbrev table_a6 : List Objective
table_a6 =
    record {
      id = codes "A6-1";
      table = codes "Table A-6";
      title = codes "Source code complies with LLR";
      applicability = (ri, ri, r, r);
    }
    ∷ record {
      id = codes "A6-2";
      table = codes "Table A-6";
      title = codes "Source code complies with architecture";
      applicability = (ri, ri, r, r);
    }
    ∷ record {
      id = codes "A6-3";
      table = codes "Table A-6";
      title = codes "Source code is verifiable";
      applicability = (ri, ri, r, na);
    }
    ∷ record {
      id = codes "A6-4";
      table = codes "Table A-6";
      title = codes "Source code conforms to standards";
      applicability = (ri, ri, r, r);
    }
    ∷ record {
      id = codes "A6-5";
      table = codes "Table A-6";
      title = codes "Source code is traceable to LLR";
      applicability = (ri, ri, r, r);
    }
    ∷ []

abbrev table_a7 : List Objective
table_a7 =
    record {
      id = codes "A7-1";
      table = codes "Table A-7";
      title = codes "Executable object code complies with HLR";
      applicability = (ri, ri, r, r);
    }
    ∷ record {
      id = codes "A7-2";
      table = codes "Table A-7";
      title = codes "Executable object code is robust with HLR";
      applicability = (ri, ri, r, r);
    }
    ∷ record {
      id = codes "A7-3";
      table = codes "Table A-7";
      title = codes "Executable object code complies with LLR";
      applicability = (ri, ri, r, na);
    }
    ∷ record {
      id = codes "A7-4";
      table = codes "Table A-7";
      title = codes "Executable object code is robust with LLR";
      applicability = (ri, ri, na, na);
    }
    ∷ record {
      id = codes "A7-5";
      table = codes "Table A-7";
      title = codes "Executable object code is compatible with target";
      applicability = (ri, ri, r, r);
    }
    ∷ record {
      id = codes "A7-6";
      table = codes "Table A-7";
      title = codes "Test coverage of HLR is achieved";
      applicability = (ri, ri, r, r);
    }
    ∷ record {
      id = codes "A7-7";
      table = codes "Table A-7";
      title = codes "Test coverage of LLR is achieved";
      applicability = (ri, ri, r, na);
    }
    ∷ record {
      id = codes "A7-8";
      table = codes "Table A-7";
      title = codes "Test coverage of software structure (statement) is achieved";
      applicability = (ri, ri, r, na);
    }
    ∷ record {
      id = codes "A7-9";
      table = codes "Table A-7";
      title = codes "Test coverage of software structure (decision) is achieved";
      applicability = (ri, ri, na, na);
    }
    ∷ record {
      id = codes "A7-10";
      table = codes "Table A-7";
      title = codes "Test coverage of software structure (MC/DC) is achieved";
      applicability = (ri, na, na, na);
    }
    ∷ []

-- `OBJECTIVES`
abbrev pub objectives_table : List Objective
objectives_table = table_a3 ++ table_a4 ++ table_a5 ++ table_a6 ++ table_a7
