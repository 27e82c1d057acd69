-- ===== src/Dispatch/Tests.antt =====
-- A message and two services.
use ocserver.Common.{
  ℕ, ◌+◌, ◌≡◌, refl, Bool, true, false, List, [], ◌∷◌, ◌++◌, Option, none, some, codes,
}
use ocserver.GameProto.{FromMsg}
use ocserver.Dispatch.Services.{
  get_service, load_all_ava_java_srvs, load_java_srv_conf, exec_transact,
}
use ocserver.Dispatch.Trimming.{Leaves, exec_transact-EndsNonzero}
use ocserver.Dispatch.{Dispatch, double_free, afterpost_cb, post_msg}
use ocserver.Dispatch.Queue.{afterpost_cb_double_free, get_service-load_all_ava_java_srvs}

abbrev login : FromMsg
login = record {
  attributes = [];
  error_msg = [];
  from_version = 1;
  msg_cookie = 0;
  result_code = 1000;
  service_cmd = codes "Login";
  pack_seq = 1;
  uin = codes "7";
  net_buffer = codes "hi";
  packet_type = 0;
  client = 0;
}

-- A service that answers with two bytes and a zero.
abbrev answers : ℕ → List ℕ → ℕ → Bool × Option (List ℕ)
answers obj tosrv flags = (true, some (codes "ok" ++ (0 ∷ [])))

abbrev one_service : Dispatch
one_service = record {
  qfmsg = 5 ∷ [];
  heap = (5, login) ∷ [];
  services = record { ava_srvs = codes "Login" ∷ []; reg_srvs = (codes "Login", 1) ∷ [] };
  sent = [];
}

afterpost_cb_double_free_example :
    afterpost_cb answers 3 (post_msg 6 login one_service) ≡ double_free
afterpost_cb_double_free_example =
    afterpost_cb_double_free answers 6 2 login one_service ((login, refl), tt)

abbrev all_classes : List ℕ → Option ℕ
all_classes name = some 3

abbrev instance_of : ℕ → ℕ
instance_of cls = cls + 1

-- The second service is not found, though its class exists.
get_service-load_all_ava_java_srvs_example :
    let s =
      (load_java_srv_conf
        (codes "Login" ∷ codes "Chat" ∷ [])
        (record { ava_srvs = []; reg_srvs = [] })).1 in
    ((load_all_ava_java_srvs (codes "srv/") all_classes instance_of s).0 ≡ false)
    × (get_service
          (codes "Chat")
          (load_all_ava_java_srvs (codes "srv/") all_classes instance_of s).1
        ≡ none)
get_service-load_all_ava_java_srvs_example =
    get_service-load_all_ava_java_srvs (codes "srv/") all_classes instance_of (codes "Login")
      (codes "Chat") (codes "Chat" ∷ [])

exec_transact-EndsNonzero_run :
    (text : List ℕ) × (exec_transact answers 1 (codes "hi") [] 0 ≡ some (true, text))
    × Leaves (some (codes "ok" ++ (0 ∷ []))) [] text
exec_transact-EndsNonzero_run = exec_transact-EndsNonzero answers 1 (codes "hi") [] 0
