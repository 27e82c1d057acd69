-- ===== src/Java.antt =====
-- Core/src/jImpl.h and jImpl.cpp: the conversions of jUtils, and JCommChannel, which starts and stops the Java machine
-- and calls its static methods. The machine is an argument. Its services stand in Dispatch/Services.antt.
pub mod Bridge
mod Tests
use ocserver.Common.{
  ℕ, Bool, true, false, List, [], ◌∷◌, ◌++◌, Option, none, some, ◌==◌, if◌then◌else◌, codes,
}
use ocserver.Log.{d_error, d_info, d_warning, d_java}
use ocserver.Util.{c_string}
use ocserver.Dispatch.Services.{CommChannel, load_java_srv_conf, load_all_ava_java_srvs}
use ocserver.Config.{
  M, Configure, JsonLibrary, ◌>>=◌, ◌>>◌, pure, from_json, needs, report, null_pointer,
}

-- Whether `env`, `jvm` and `util` are set, `exloadedJVM`, and the services.
pub record Channel : Type 0 where
  pub env : Bool
  pub jvm : Bool
  pub exloaded_jvm : Bool
  pub util : Bool
  pub services : CommChannel

abbrev pub new_channel : Channel
new_channel = record {
  env = false;
  jvm = false;
  exloaded_jvm = false;
  util = false;
  services = record { ava_srvs = []; reg_srvs = [] };
}

-- The machine: what JNI_CreateJavaVM returns as a word, the classes and the static methods that it finds, and what
-- the calls of PingJava and InitDB answer.
pub record Machine : Type 0 where
  pub create_flag : ℕ
  pub find_class : List ℕ → Option ℕ
  pub new_object : ℕ → ℕ
  pub static_method : ℕ → List ℕ → Option ℕ
  pub call_text : ℕ → List ℕ
  pub call_bool : ℕ → List (List ℕ) → Bool

-- str2jArr and jArr2str: the bytes, whatever they are.
unfoldable pub str_to_jarr : List ℕ → List ℕ
str_to_jarr str = str

unfoldable pub jarr_to_str : List ℕ → List ℕ
jarr_to_str array = array

-- str2jstr, as the C string that NewStringUTF takes. GetStringUTFChars gives a C string too.
unfoldable pub str_to_jstr : List ℕ → List ℕ
str_to_jstr str = c_string str

unfoldable pub jstr_to_str : List ℕ → List ℕ
jstr_to_str chars = c_string chars

abbrev pub jninterface : List ℕ
jninterface = codes "org/gtdev/oc/server/JNInterface"

-- A pointer that is true if it is set.
abbrev pub needs_set : Bool → M (Unit {0})
needs_set b = needs (if b then some tt else none)

unfoldable pub load_env : Channel → Channel
load_env c = record c { env = true; jvm = true; exloaded_jvm = true }

-- destroyJVM: whether a machine is destroyed.
unfoldable pub destroy_jvm : Channel → M Bool
destroy_jvm c = if c.exloaded_jvm then pure false else (needs_set c.jvm >> pure true)

module _ (now : List ℕ) (frames : List (List ℕ)) (library : JsonLibrary) (machine : Machine)
    (decimal : ℕ → List ℕ) where
  open library use {Json, at, texts}
  open machine use {create_flag, find_class, static_method, call_text, call_bool}

  -- loadJavaSrvConf
  unfoldable pub load_conf : Configure Json → Channel → M Channel
  load_conf conf c = do
    apps ← from_json (at conf.js (codes "server_apps"))
    names ← from_json (texts apps)
    let loaded = load_java_srv_conf names c.services
    report now frames d_info d_java (loaded.0 ∷ [])
    pure (record c { services = loaded.1 })

  unfoldable pub create_jvm : List ℕ → List ℕ → Configure Json → Channel → M Channel
  create_jvm classpath nlibrary conf c = do
    report now frames d_info d_java ((codes "-Djava.class.path=" ++ classpath) ∷ [])
    report now frames d_info d_java ((codes "-Djava.library.path=" ++ nlibrary) ∷ [])
    if create_flag == 0
        then (report now frames d_info d_java (codes "JVM loaded successfully." ∷ [])
            >> load_conf conf (record c { env = true; jvm = true; util = true }))
        else (report now frames d_warning d_java
              (codes "Error creating JVM: " ∷ decimal create_flag ∷ [])
            >> pure c)

  -- load_allAvaJavaSrvs, which looks for classes only if there are names.
  unfoldable pub load_services : List ℕ → Channel → M (Bool × Channel)
  load_services base c = do
    elim c.services.ava_srvs [ [] ↦ pure tt | name ∷ names ↦ needs_set c.env ]
    let loaded = load_all_ava_java_srvs base find_class machine.new_object c.services
    pure (loaded.0, record c { services = loaded.1 })

  unfoldable pub ping_java : Channel → M (List ℕ)
  ping_java c = do
    needs_set c.env
    elim (find_class jninterface) [
      | none ↦
          report now frames d_error d_java (codes "ERROR: JNInterface class not found." ∷ [])
          >> pure []
      | some cls ↦ elim (static_method cls (codes "PingJava")) [
        | none ↦
            report now frames d_error d_java
              (codes "ERROR: static method String PingJava() not found !" ∷ [])
            >> pure []
        | some mid ↦ needs_set c.util >> pure (jstr_to_str (call_text mid))
      ]
    ]

  -- InitDB, which does not look whether its method is found.
  unfoldable pub init_db : List ℕ → List ℕ → List ℕ → Channel → M Bool
  init_db addr uname pwd c = do
    needs_set c.env
    elim (find_class jninterface) [
      | none ↦
          report now frames d_error d_java (codes "ERROR: JNInterface class not found." ∷ [])
          >> pure false
      | some cls ↦ needs_set c.util >> needs (static_method cls (codes "InitDB")) >>= λ mid.
          pure (call_bool mid (str_to_jstr addr ∷ str_to_jstr uname ∷ str_to_jstr pwd ∷ []))
    ]
