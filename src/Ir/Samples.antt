-- ===== src/Ir/Samples.antt =====
-- The programs of the interpreter's and the validator's own tests.
use laminaria_rust_nim_toolc.Prelude.{pos, String, List, [], ◌∷◌, map, insert}
use laminaria_rust_nim_toolc.Ir.Types.{
  Stmt, int_lit, param, wrapping_add, call, nil, cons, return, rust, i32, FnFact, Program,
  Provenance, insert_fact,
}

abbrev pub prov : Provenance
prov = record {
  source_file = "test";
  span = record { start = record { line = 1; column = 1 }; end = record { line = 1; column = 1 } };
  language = rust;
}

abbrev pub fact : String → List String → Stmt → FnFact
fact name params body = record {
  name = name;
  params = map (λ x. (x, i32)) params;
  return_width = i32;
  body = body;
  provenance = prov;
}

-- double(x) = x +% x, and caller() = double(double(1))
unfoldable pub nested : Program
unfolding insert_fact insert
nested =
    insert_fact
      (insert_fact (record { functions = [] })
        (fact "double" ("x" ∷ []) (return (wrapping_add (param 0 prov) (param 0 prov) prov) prov)))
      (fact "caller" [] (
        return
          (call "double" (cons (call "double" (cons (int_lit (pos 1) i32 prov) nil) prov) nil) prov)
          prov))
