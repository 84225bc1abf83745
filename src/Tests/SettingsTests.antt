-- ===== src/Tests/SettingsTests.antt =====
-- /mptcp on a kernel of MPTCP v1, once with a kernel that refuses the scheduler.
use openmptcprouter_vps.Dict.{has_key, insert, lookup}
use openmptcprouter_vps.Exec.{ok, ◌>>=◌}
use openmptcprouter_vps.Host.Reply.{changes_applied}
use openmptcprouter_vps.Mptcp.Ending.{MptcpOutcome}
use openmptcprouter_vps.Mptcp.Endpoint.{ensure_parameters, has_cc, mptcp, nanbbr_parameters}
use openmptcprouter_vps.Mptcp.Kernel.{Kernel, Settings, conf_text, in_place}
use openmptcprouter_vps.Mptcp.Liveness.{mptcp_works}
use openmptcprouter_vps.Mptcp.Names.{
  available_schedulers, canonical_name, is_in, normalize_mptcp_path_manager,
  normalize_mptcp_scheduler, object_stem, strip_prefix,
}
use openmptcprouter_vps.Mptcp.Obliging.{IsObliging}
use openmptcprouter_vps.Mptcp.Request.{
  MptcpHost, MptcpParams, blank_text, is_nonzero, is_safe_name, is_within, mptcp_values, offered,
  parameter_path, refusal, str_int, v1_options, v1_values, wanted_path_manager, wanted_scheduler,
  whole,
}
use openmptcprouter_vps.Mptcp.Safety.{mptcp_all_or_nothing}
use openmptcprouter_vps.Prelude.{
  List, String, String_discrete, [], contains, false, if◌then◌else◌, none, not, pos, refl, some,
  str, true, ◌==◌, ◌∷◌, ◌≡◌,
}
use openmptcprouter_vps.Tests.Data.{admin, not_read_only}

abbrev obliging : Kernel
obliging = record {
  stores = λ n key value. some value;
  reads = λ n key. true;
  replaces = λ n path. in_place;
}

obliging-IsObliging : IsObliging obliging
obliging-IsObliging = record {
  reads = λ n key. refl;
  stores = λ n key value. refl;
  replaces = λ n path. refl;
}

-- A kernel without the scheduler that is asked for.
abbrev no_scheduler : Kernel
no_scheduler = record obliging {
  stores = λ n key value. if value == "bpf_red" then none else some value;
}

abbrev v1_host : MptcpHost
v1_host = record {
  path_managers = "kernel" ∷ "userspace" ∷ [];
  scheduler_objects = some ("mptcp_bpf_red.o" ∷ []);
  is_v0 = false;
  has_option = λ name. not (name == "pm_type");
  has_file = λ path. path == "/etc/xray/xray-server.json";
  is_ready = λ modules path. is_in "tcp_nanbbr1_var" modules;
  available_cc = λ modules. some ("cubic" ∷ "bbr" ∷ "nanbbr1_var" ∷ []);
  has_lock = true;
}

abbrev request : MptcpParams
request = record {
  checksum = "1";
  path_manager = "fullmesh";
  scheduler = "mptcp_bpf_red";
  syn_retries = whole (pos 4);
  congestion_control = "nanbbr1_var";
  version = whole (pos 1);
  close_timeout = blank_text;
  pm_type = whole (pos 1);
  stale_loss_cnt = blank_text;
  syn_retrans_before_tcp_fallback = blank_text;
  nanbbr_aggressiveness = some 40;
}

abbrev aggressiveness_files : List String
aggressiveness_files =
    "/sys/module/tcp_nanbbr1_var/parameters/aggressiveness"
    ∷ "/sys/module/tcp_nanbbr2_var/parameters/aggressiveness"
    ∷ "/sys/module/tcp_nanbbr3_var/parameters/aggressiveness" ∷ []

abbrev before : Settings
before = record {
  values =
      ("net.mptcp.checksum_enabled", "0")
      ∷ ("net.mptcp.scheduler", "default")
      ∷ ("net.mptcp.path_manager", "kernel")
      ∷ ("net.mptcp.syn_retries", "3")
      ∷ ("net.ipv4.tcp_congestion_control", "cubic")
      ∷ ("/sys/module/tcp_nanbbr1_var/parameters/aggressiveness", "50")
      ∷ ("/sys/module/tcp_nanbbr2_var/parameters/aggressiveness", "50")
      ∷ ("/sys/module/tcp_nanbbr3_var/parameters/aggressiveness", "50")
      ∷ [];
  conf = conf_text "net.core.rmem_max = 1\nnet.mptcp.scheduler=default\n";
  nanbbr_conf = none;
  calls = 0;
  modprobed = [];
  commands = [];
}

-- The values of the request, worked out.
values_read :
    mptcp_values v1_host request
    ≡ ("net.mptcp.checksum_enabled", "1")
      ∷ ("net.mptcp.scheduler", "bpf_red")
      ∷ ("net.mptcp.path_manager", "kernel")
      ∷ ("net.mptcp.syn_retries", "4")
      ∷ []
unfolding String_discrete contains lookup insert normalize_mptcp_path_manager
    normalize_mptcp_scheduler available_schedulers object_stem canonical_name strip_prefix
    wanted_path_manager wanted_scheduler mptcp_values v1_values v1_options offered is_nonzero
    str_int str
values_read = refl

request_passes : refusal v1_host request ≡ none
unfolding refusal is_within is_safe_name has_key String_discrete contains lookup insert
    normalize_mptcp_path_manager normalize_mptcp_scheduler available_schedulers object_stem
    canonical_name strip_prefix wanted_path_manager wanted_scheduler is_nonzero
request_passes = refl

parameters_found :
    (nanbbr_parameters v1_host "nanbbr1_var" (some 40) before).0 ≡ ok (some aggressiveness_files)
unfolding nanbbr_parameters ensure_parameters parameter_path contains String_discrete ◌>>=◌
parameters_found = refl

mptcp_all_or_nothing_example :
    MptcpOutcome v1_host request before (mptcp no_scheduler v1_host request admin before)
mptcp_all_or_nothing_example = mptcp_all_or_nothing no_scheduler v1_host request admin before refl

mptcp_works_example : (mptcp obliging v1_host request admin before).0 ≡ ok changes_applied
unfolding has_cc contains lookup String_discrete
mptcp_works_example =
    mptcp_works obliging v1_host request admin before {parameters = aggressiveness_files}
      obliging-IsObliging not_read_only refl request_passes parameters_found (λ modules. refl) refl
      (rw values_read (refl, (refl, (refl, (refl, (refl, tt)))))) (refl, (refl, (refl, tt)))
