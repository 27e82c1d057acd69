-- ===== src/Main/Tests.antt =====
-- src/main.cpp: starts that fail.
use ocserver.Common.{ℕ, ◌≡◌, refl, false, List, [], ◌∷◌, Option, none, some, codes, arith}
use ocserver.Log.{Log, logged, debug_message, d_info, d_main}
use ocserver.Paths.{Files, get_pathname}
use ocserver.Config.{null_pointer}
use ocserver.Config.Toy.{quiet, word, settings, toy_library}
use ocserver.Java.{Machine}
use ocserver.Main.{Returns, serve}
use ocserver.Main.Failures.{IsRefused, serve_unconfigured, serve_without_machine}

abbrev no_name : ℕ → Option (List ℕ)
no_name n = none

abbrev digits : ℕ → List ℕ
digits n = []

abbrev no_machine : Machine
no_machine = record {
  create_flag = 4294967295;
  find_class = λ n. none;
  new_object = λ n. n;
  static_method = λ c n. none;
  call_text = λ m. [];
  call_bool = λ m args. false;
}

abbrev all_zero : Returns
all_zero = record {
  loop_ret = 0;
  ctx_ret = 0;
  mutex_ret = 0;
  cert_ret = 1;
  listen_ret = 0;
  thread_ret = 0;
  ssl_err = 0;
  ssl_text = [];
}

abbrev homes : Files
homes = record { filenames = (codes "userdir", codes "/u/") ∷ []; made = [] }

abbrev no_file : List ℕ → Option (List ℕ)
no_file path = none

abbrev one_file : List ℕ → Option (List ℕ)
one_file path = some (codes "{")

serve_unconfigured_example :
    (s : Log) × (debug_message [] [] d_info d_main (codes "Version: " ∷ codes "1" ∷ []) quiet
      ≡ logged s)
    × IsRefused [] [] no_name no_name digits
        (codes "No such file")
        (codes "1")
        []
        toy_library
        no_machine
        no_file
        all_zero
        (codes "/u/config.json")
        none
        s
        (serve [] [] no_name no_name digits
          (codes "No such file")
          (codes "1")
          []
          toy_library
          no_machine
          no_file
          all_zero
          homes
          quiet)
unfolding get_pathname
serve_unconfigured_example =
    serve_unconfigured [] [] no_name no_name digits (codes "No such file") (codes "1") []
      toy_library no_machine no_file all_zero homes quiet refl

serve_without_machine_example :
    serve [] [] no_name no_name digits
      (codes "No such file")
      (codes "1")
      []
      toy_library
      no_machine
      one_file
      all_zero
      homes
      quiet
    ≡ null_pointer
serve_without_machine_example =
    serve_without_machine [] [] no_name no_name digits (codes "No such file") (codes "1") []
      toy_library no_machine one_file all_zero homes quiet settings (word (codes "localhost"))
      (word (codes "oc")) (word (codes "pw")) (codes "localhost") (codes "oc") (codes "pw") refl
      refl refl refl refl refl refl (λ e. omega (arith, e))
