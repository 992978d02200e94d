-- ===== src/Config/Env/Values/Sources.antt =====
-- internal/config/env.go, readEnvValues: the process environment before the file.
use go_proxy_mux.Prelude.{◌≡◌, sym, ap, ◌∙◌, subst, true, List}
use go_proxy_mux.Prelude.Bytes.{Bytes, codes}
use go_proxy_mux.Prelude.Dict.{lookup, Unique}
use go_proxy_mux.Config.Env.Settings.{Variables, applied}
use go_proxy_mux.Config.Env.Folded.{bind-eq-applied, applied_injective}
use go_proxy_mux.Config.Env.Values.{EnvFile, is_ours, add_environ, read_file, read_env_values}
use go_proxy_mux.Config.Env.Values.Environ.{
  or_first, last_assigned, lookup-add_environ, add_environ-Unique,
}
use go_proxy_mux.Config.Env.Values.Lines.{first_assigned, lines_of, read_file-Added, has_own}

-- Where the values are from: a name is there once, and one that begins with MUX_ has the last value
-- that the process environment gives it, else what the file's line says, of which there is one.
pub record Sourced (trim : Bytes → Bytes) (file : EnvFile) (environ : List Bytes)
    (values : Variables) : Type 0 where
  pub precedence :
      (name : Bytes)
      → is_ours name ≡ true
      → lookup name values
        ≡ or_first (last_assigned name environ) (first_assigned trim name (lines_of file))
  pub unique : Unique values

-- When the environment file and the process environment can be read, a name that begins with MUX_
-- has the last value that the process environment gives it, else the value that the file gives it,
-- else none; and no name is there twice.
pub read_env_values-Sourced :
    (trim : Bytes → Bytes) (file : EnvFile) (environ : List Bytes) (values : Variables)
    → read_env_values trim file environ ≡ applied values
    → Sourced trim file environ values
unfolding read_env_values lookup
read_env_values-Sourced trim file environ values e =
    let (vars, first, last) =
      bind-eq-applied (read_file trim file) (λ v. applied (add_environ environ v)) values e in
    let same = applied_injective (add_environ environ vars) values last in
    subst (Sourced trim file environ) (sym same) (record {
      precedence = λ name ours.
          lookup-add_environ name environ vars ours
          ∙ ap (or_first (last_assigned name environ))
              (read_file-Added trim name file vars ours first).entry;
      unique =
          add_environ-Unique environ vars
            ((read_file-Added trim (codes "MUX_") file vars has_own first).unique tt);
    })
