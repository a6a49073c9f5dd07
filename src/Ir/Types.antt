-- ===== src/Ir/Types.antt =====
-- crates/laminaria-ir/src/types.rs: the expression and statement grammar. A list of argument
-- expressions is `Exprs`, since a data type cannot hold a library list of itself.
use laminaria_rust_nim_toolc.Prelude.{ℕ, ℤ, String, List, lookup, insert, Option}

pub data SourceLanguage : Type 0 where
  rust nim : SourceLanguage

pub record SourcePosition : Type 0 where
  pub line : ℕ
  pub column : ℕ

pub record SourceSpan : Type 0 where
  pub start : SourcePosition
  pub end : SourcePosition

pub record Provenance : Type 0 where
  pub source_file : String
  pub span : SourceSpan
  pub language : SourceLanguage

pub data IntWidth : Type 0 where
  i32 : IntWidth

-- The number in a `LocalId`, which in the source is a `u32`: what makes new ids wraps at 2^32
-- (Ir/Transform/Rename). The name in a `FnId`.
abbrev pub LocalId : Type 0
LocalId = ℕ

abbrev pub FnId : Type 0
FnId = String

mutual
  pub data Expr : Type 0 where
    int_lit : ℤ → IntWidth → Provenance → Expr
    param : ℕ → Provenance → Expr
    local : LocalId → Provenance → Expr
    wrapping_add : Expr → Expr → Provenance → Expr
    wrapping_sub : Expr → Expr → Provenance → Expr
    wrapping_mul : Expr → Expr → Provenance → Expr
    not_eq_zero : Expr → Provenance → Expr
    call : FnId → Exprs → Provenance → Expr
    let_in : LocalId → Expr → Expr → Provenance → Expr

  pub data Exprs : Type 0 where
    nil : Exprs
    cons : Expr → Exprs → Exprs

pub data Stmt : Type 0 where
  let_then : LocalId → Expr → Stmt → Provenance → Stmt
  if_else : Expr → Stmt → Stmt → Provenance → Stmt
  return : Expr → Provenance → Stmt

abbrev pub count_exprs : Exprs → ℕ
count_exprs nil = 0
count_exprs (cons e es) = ℕ.suc (count_exprs es)

abbrev pub get_expr? : Exprs → ℕ → Option Expr
get_expr? nil i = Option.none
get_expr? (cons e es) ℕ.zero = Option.some e
get_expr? (cons e es) (ℕ.suc i) = get_expr? es i

pub record FnFact : Type 0 where
  pub name : String
  pub params : List (String × IntWidth)
  pub return_width : IntWidth
  pub body : Stmt
  pub provenance : Provenance

pub record Program : Type 0 where
  pub functions : List (String × FnFact)

-- `Program::insert`
unfoldable pub insert_fact : Program → FnFact → Program
insert_fact p fact = record { functions = insert fact.name fact p.functions }

-- `program.functions.get(name)`
abbrev pub get_fact : Program → String → Option FnFact
get_fact p name = lookup name p.functions
