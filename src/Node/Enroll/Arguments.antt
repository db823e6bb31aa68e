-- ===== src/Node/Enroll/Arguments.antt =====
-- How the command line of an enrollment is read.
use jw_swarm.Common.{
  String, List, [], ◌∷◌, Bool, true, false, Option, none, some, unwrap_or, not, any, ◌≡◌, refl, ap,
  sym, ◌∙◌, arith, ◌&&◌,
}
use jw_swarm.Node.Enroll.{
  EnrollArgs, Options, Parsed, parsed, missing, parse_from, parse_args, required, with_value,
  without_value,
}

-- What a user says of an enrollment.
pub data Setting : Type 0 where
  base_url node_id token out_dir : String → Setting
  no_write_config : Setting

-- A command line that says this, in this order.
abbrev pub command_line : List Setting → List String
command_line [] = []
command_line (base_url v ∷ said) = "--base-url" ∷ v ∷ command_line said
command_line (node_id v ∷ said) = "--node-id" ∷ v ∷ command_line said
command_line (token v ∷ said) = "--token" ∷ v ∷ command_line said
command_line (out_dir v ∷ said) = "--out-dir" ∷ v ∷ command_line said
command_line (no_write_config ∷ said) = "--no-write-config" ∷ command_line said

abbrev base_url_of : Setting → Option String
base_url_of (base_url v) = some v
base_url_of _ = none

abbrev node_id_of : Setting → Option String
node_id_of (node_id v) = some v
node_id_of _ = none

abbrev token_of : Setting → Option String
token_of (token v) = some v
token_of _ = none

abbrev out_dir_of : Setting → Option String
out_dir_of (out_dir v) = some v
out_dir_of _ = none

abbrev forbids_config : Setting → Bool
forbids_config no_write_config = true
forbids_config _ = false

abbrev or_else {ℓ} : {A : Type ℓ} → Option A → Option A → Option A
or_else none o = o
or_else (some a) o = some a

-- The last value that is said.
abbrev last_of : (Setting → Option String) → List Setting → Option String
last_of value [] = none
last_of value (x ∷ said) = or_else (last_of value said) (value x)

-- The arguments that are said, if the three that have no default are: of each, the last value.
abbrev pub meant : List Setting → Option EnrollArgs
meant said = elim (last_of base_url_of said) [
  | none ↦ none
  | some b ↦ elim (last_of node_id_of said) [
    | none ↦ none
    | some n ↦ elim (last_of token_of said) [
      | none ↦ none
      | some t ↦ some (record {
        base_url = b;
        node_id = n;
        token = t;
        out_dir = unwrap_or (last_of out_dir_of said) "/etc/jw-swarm-node";
        write_config = not (any forbids_config said);
      })
    ]
  ]
]

-- The arguments are read, or one of them is reported as missing.
abbrev pub IsReading : Option EnrollArgs → Parsed → Type 0
IsReading (some a) answer = answer ≡ parsed a
IsReading none answer = (argument : String) × (answer ≡ missing argument)

-- The options after all that is said.
abbrev with_all : List Setting → Options → Options
with_all said o = record {
  base_url = or_else (last_of base_url_of said) o.base_url;
  node_id = or_else (last_of node_id_of said) o.node_id;
  token = or_else (last_of token_of said) o.token;
  out_dir = unwrap_or (last_of out_dir_of said) o.out_dir;
  write_config = o.write_config && not (any forbids_config said);
}

or_else_assoc {ℓ} :
    {A : Type ℓ} (a b c : Option A) → or_else (or_else a b) c ≡ or_else a (or_else b c)
or_else_assoc none b c = refl
or_else_assoc (some x) b c = refl

unwrap_or-or_else {ℓ} :
    {A : Type ℓ} (a b : Option A) (x : A) → unwrap_or (or_else a b) x ≡ unwrap_or a (unwrap_or b x)
unwrap_or-or_else none b x = refl
unwrap_or-or_else (some y) b x = refl

and_false : (b : Bool) → (b && false) ≡ false
and_false true = refl
and_false false = refl

and_true : (b : Bool) → (b && true) ≡ b
and_true true = refl
and_true false = refl

abbrev with_one : Setting → Options → Options
with_one (base_url v) o = record o { base_url = some v }
with_one (node_id v) o = record o { node_id = some v }
with_one (token v) o = record o { token = some v }
with_one (out_dir v) o = record o { out_dir = v }
with_one no_write_config o = record o { write_config = false }

-- The options after what is said, with those of one setting before it.
abbrev ahead : Setting → List Setting → Options → Options
ahead x said o = record {
  base_url = or_else (last_of base_url_of said) (or_else (base_url_of x) o.base_url);
  node_id = or_else (last_of node_id_of said) (or_else (node_id_of x) o.node_id);
  token = or_else (last_of token_of said) (or_else (token_of x) o.token);
  out_dir = unwrap_or (last_of out_dir_of said) (unwrap_or (out_dir_of x) o.out_dir);
  write_config = o.write_config && not (any forbids_config (x ∷ said));
}

ahead_one :
    (x : Setting) (said : List Setting) (o : Options)
    → ahead x said o ≡ with_all said (with_one x o)
ahead_one (base_url v) said o = refl
ahead_one (node_id v) said o = refl
ahead_one (token v) said o = refl
ahead_one (out_dir v) said o = refl
ahead_one no_write_config said o = rw (and_false o.write_config) refl

with_all-cons :
    (x : Setting) (said : List Setting) (o : Options)
    → with_all (x ∷ said) o ≡ with_all said (with_one x o)
with_all-cons x said o =
    rw
      (
        or_else_assoc (last_of base_url_of said) (base_url_of x) o.base_url,
        or_else_assoc (last_of node_id_of said) (node_id_of x) o.node_id,
        or_else_assoc (last_of token_of said) (token_of x) o.token,
        unwrap_or-or_else (last_of out_dir_of said) (out_dir_of x) o.out_dir,
      )
      (ahead_one x said o)

parse_from-no_write_config :
    (rest : List String) (o : Options)
    → parse_from ("--no-write-config" ∷ rest) o
      ≡ parse_from rest (record o { write_config = false })
unfolding parse_from with_value without_value
parse_from-no_write_config [] o = refl
parse_from-no_write_config (v ∷ rest) o = refl

parse_from-command_line :
    (said : List Setting) (o : Options)
    → parse_from (command_line said) o ≡ required (with_all said o)
unfolding parse_from with_value
parse_from-command_line [] o =
    ap (λ b. required (record o { write_config = b })) (sym (and_true o.write_config))
parse_from-command_line (x ∷ said) o =
    first x
    ∙ parse_from-command_line said (with_one x o)
    ∙ ap required (sym (with_all-cons x said o))
  where
    first :
        (x : Setting)
        → parse_from (command_line (x ∷ said)) o ≡ parse_from (command_line said) (with_one x o)
    first (base_url v) = refl
    first (node_id v) = refl
    first (token v) = refl
    first (out_dir v) = refl
    first no_write_config = parse_from-no_write_config (command_line said) o

required-IsReading :
    (said : List Setting)
    → let o : Options = record {
      base_url = none;
      node_id = none;
      token = none;
      out_dir = "/etc/jw-swarm-node";
      write_config = true;
    } in
      IsReading (meant said) (required (with_all said o))
unfolding required
required-IsReading said = ground arith

-- Reading a command line gives what it says, however often and in whatever order.
pub parse_args-command_line :
    (said : List Setting) → IsReading (meant said) (parse_args (command_line said))
unfolding parse_args
parse_args-command_line said = rw (parse_from-command_line said _) (required-IsReading said)
