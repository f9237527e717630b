-- ===== src/Intent/Render.antt =====
-- The configuration of MariaDB that an intent is rendered to (intent/render.mjs).
use elera.Prelude.{
  ℕ, String, ◌≡◌, sym, ap, ◌∙◌, Option, none, some, List, [], ◌∷◌, map, nat_eq, string_eq,
}
use elera.Prelude.Int.{pos_part, ℤ}
use elera.Prelude.Result.{Result, ok, err}
use elera.Prelude.Text.{append}
use elera.Intent.{Intent, Member, IntentError, validate_intent, or_empty}

-- A line of the file: a section, or a setting.
pub data Line : Type 0 where
  section : String → Line
  setting : String → String → Line
  numeric : String → ℕ → Line

abbrev pub text_or : String → Option String → String
text_or d none = d
text_or d (some s) = s

abbrev pub port_of : Option ℤ → ℕ
port_of none = 0
port_of (some z) = pos_part z

-- `addresses.join(',')`
unfoldable pub join : List String → String
unfolding append
join [] = ""
join (a ∷ []) = a
join (a ∷ b ∷ rest) = append a (append "," (join (b ∷ rest)))

-- The lines for Galera, which a cluster of more than one member gets.
unfoldable pub galera_lines : Option String → List Member → List Line
unfolding join
galera_lines name [] = []
galera_lines name (m ∷ []) = []
galera_lines name (m ∷ n ∷ ms) =
    setting "wsrep_on" "ON"
    ∷ setting "wsrep_provider" "/usr/lib/galera/libgalera_smm.so"
    ∷ setting "wsrep_sst_method" "mariabackup"
    ∷ setting "wsrep_auto_increment_control" "ON"
    ∷ setting "wsrep_cluster_name" (text_or "undefined" name)
    ∷ setting "wsrep_cluster_address"
        (append "gcomm://" (join (map (λ k. text_or "" k.address) (m ∷ n ∷ ms))))
    ∷ setting "wsrep_node_name" (text_or "undefined" m.name)
    ∷ setting "wsrep_node_address" (text_or "undefined" m.address)
    ∷ []

-- `renderMariaDbConfig` of an intent that was validated, whose port is positive.
unfoldable pub render_mariadb_config : Intent → List Line
unfolding galera_lines
render_mariadb_config d =
    section "mysqld"
    ∷ numeric "port" (port_of d.mariadb_port)
    ∷ setting "datadir" (text_or "/var/lib/mysql" d.data_dir)
    ∷ setting "binlog_format" "ROW"
    ∷ numeric "innodb_autoinc_lock_mode" 2
    ∷ galera_lines d.cluster_name (or_empty d.members)

pub record Rendered : Type 0 where
  pub hash : String
  pub mariadb : List Line
  pub intent : Intent

abbrev pub rendered_of : (Intent → String) → Result IntentError Intent → Result IntentError Rendered
rendered_of hash (err e) = err e
rendered_of hash (ok d) =
    ok (record { hash = hash d; mariadb = render_mariadb_config d; intent = d })

-- `renderIntent`
unfoldable pub render_intent : (Intent → String) → Intent → Result IntentError Rendered
unfolding render_mariadb_config
render_intent hash input = rendered_of hash (validate_intent input)

-- A rendered intent is the valid input itself.
pub render_intent-ok :
    (hash : Intent → String) (d : Intent) {r : Rendered}
    → render_intent hash d ≡ ok r
    → (validate_intent d ≡ ok r.intent)
      × (r ≡ record {
        hash = hash r.intent;
        mariadb = render_mariadb_config r.intent;
        intent = r.intent;
      })
unfolding render_intent
render_intent-ok hash d h = on (validate_intent d) h
  where
    inj : {x y : Rendered} → Path (Result IntentError Rendered) (ok x) (ok y) → x ≡ y
    inj e = cc

    on :
        {r : Rendered} (v : Result IntentError Intent)
        → rendered_of hash v ≡ ok r
        → (v ≡ ok r.intent)
          × (r ≡ record {
            hash = hash r.intent;
            mariadb = render_mariadb_config r.intent;
            intent = r.intent;
          })
    on (err e) h = absurd (cc)
    on (ok i) h =
        let e = sym (inj h) in
        (
          ap ok (sym (ap (λ x. x.intent) e)),
          e
              ∙ ap (λ j. record { hash = hash j; mariadb = render_mariadb_config j; intent = j })
                  (sym (ap (λ x. x.intent) e)),
        )
