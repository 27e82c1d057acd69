-- ===== src/Main.antt =====
-- src/main.cpp: what main does behind the signal's handler, from the configuration to the server's thread.
pub mod Failures
mod Tests
use ocserver.Common.{
  ℕ, Bool, true, false, List, [], ◌∷◌, ◌++◌, Option, none, some, ◌==◌, if◌then◌else◌, codes,
}
use ocserver.Log.{d_info, d_main, d_warning}
use ocserver.Paths.{Files, get_pathname}
use ocserver.Config.{M, Configure, JsonLibrary, ◌>>=◌, ◌>>◌, pure, from_json, report, configure}
use ocserver.Java.{Channel, Machine, new_channel, create_jvm, load_services, init_db}
use ocserver.Server.Running.{Net, make_net, set_srvcert, set_protocol, bind_and_listen, start_net}

-- What libuv and OpenSSL return to the constructor of uvnet, to set_srvcert, uv_listen and uv_thread_create.
pub record Returns : Type 0 where
  pub loop_ret : ℕ
  pub ctx_ret : ℕ
  pub mutex_ret : ℕ
  pub cert_ret : ℕ
  pub listen_ret : ℕ
  pub thread_ret : ℕ
  pub ssl_err : ℕ
  pub ssl_text : List ℕ

-- `strerror` is that of a file that does not open; `contents` is what a file holds, if it opens.
module _ (now : List ℕ) (frames : List (List ℕ)) (name error_string : ℕ → Option (List ℕ))
    (decimal : ℕ → List ℕ) (strerror version base : List ℕ) (library : JsonLibrary)
    (machine : Machine) (contents : List ℕ → Option (List ℕ)) (returns : Returns) where
  open library use {Json, at, text}
  open returns use {
    loop_ret, ctx_ret, mutex_ret, cert_ret, listen_ret, thread_ret, ssl_err, ssl_text,
  }

  -- `conf->js[key]` as a string.
  unfoldable pub setting : List ℕ → Configure Json → M (List ℕ)
  setting key conf = from_json (at conf.js key) >>= λ js. from_json (text js)

  -- The server: main does not look at what it returns, but for the certificate.
  unfoldable pub serve_net : List ℕ → Configure Json → M (Option (Bool × Net))
  serve_net udir conf = do
    net ← make_net now frames name error_string decimal loop_ret ctx_ret mutex_ret ssl_err ssl_text
    cert ← setting (codes "server_cert") conf
    key ← setting (codes "server_key") conf
    ires ← set_srvcert now frames name error_string decimal cert_ret (udir ++ cert) (udir ++ key)
    if ires == 1
        then pure tt
        else report now frames d_warning d_main
            (codes "Load server certification error. ret: " ∷ decimal ires ∷ [])
    bound ← bind_and_listen now frames name error_string decimal listen_ret (set_protocol true net)
    start_net now frames name error_string decimal thread_ret bound

  -- The Java machine, its services and its data base.
  unfoldable pub start_java : List ℕ → List ℕ → Configure Json → M (Bool × Channel)
  start_java javadir basedir conf = do
    jc ←
        create_jvm now frames library machine decimal
          (javadir
            ++ codes "JavaP.jar:"
            ++ javadir
            ++ codes "lib"
            ++ codes "/"
            ++ codes "mysql-connector-java-5.1.46.jar")
          (basedir ++ codes "Core") conf new_channel
    loaded ← load_services now frames library machine decimal base jc
    addr ← setting (codes "db_addr") conf
    username ← setting (codes "db_username") conf
    password ← setting (codes "db_password") conf
    opened ← init_db now frames library machine decimal addr username password loaded.1
    pure (opened, loaded.1)

  unfoldable pub serve : Files → M (Option (Bool × Net))
  serve files = do
    report now frames d_info d_main (codes "Version: " ∷ version ∷ [])
    let userdir = get_pathname (codes "userdir") files
    let javadir = get_pathname (codes "javadir") userdir.1
    let basedir = get_pathname (codes "basedir") javadir.1
    let path = userdir.0 ++ codes "config.json"
    conf ← configure now frames library strerror path (contents path)
    java ← start_java javadir.0 basedir.0 conf
    serve_net userdir.0 conf
