-- ===== src/Tests/Sending.antt =====
-- Runs of the file transfer of Assignment2/client_real.c on small inputs.
use nss_i_assignments.Base.{
  ◌≡◌, refl, true, none, some, [], ◌∷◌, Bytes, codes, if◌then◌else◌, List, arith, ltb,
}
use nss_i_assignments.CString.{str_eq, contains, strstr, has_prefix, print_dec}
use nss_i_assignments.Common.Files.{Disk}
use nss_i_assignments.Common.Files.Atomic.{Succeed}
use nss_i_assignments.Transfer.Keys.{Host, load_file}
use nss_i_assignments.Client.Words.{IsWord}
use nss_i_assignments.Client.Settings
use nss_i_assignments.Client.Settings.{parse_args, parse_flags}
use nss_i_assignments.Client.Sending.{Calls, send_file_tls, connect_loop, int_size}
use nss_i_assignments.Client.Receiving.{Setup, tls_receive_thread}
use nss_i_assignments.Client.Arriving.{Brings}
use nss_i_assignments.Client.Delivered.{Ready, tls_receive_thread-send_file_tls}
use nss_i_assignments.Tests.Login.{evp}

abbrev disk : Disk
disk path = if str_eq path (codes "files/a.txt") then some (codes "hi") else none

abbrev host : Host
host = record { evp = evp; disk = disk; malloc = λ n. true }

-- The third attempt connects.
abbrev calls : Calls
calls = record {
  context = true;
  connects = λ attempt. ltb 1 attempt;
  session = true;
  handshake = true;
  header_written = true;
  data_written = true;
}

abbrev setup : Setup
setup = record {
  context = true;
  certificate = true;
  listens = true;
  accepts = true;
  session = true;
  handshake = true;
  malloc = λ n. true;
  saving = record { pid = 3; opens = true; writes = []; closes = true; renames = true };
}

ready : Ready setup
ready = record {
  context = refl;
  certificate = refl;
  listens = refl;
  accepts = refl;
  session = refl;
  handshake = refl;
  malloc = λ n. refl;
}

a_txt-IsWord : IsWord (codes "a.txt")
unfolding contains
a_txt-IsWord = ((λ e. cc), (refl, (refl, (refl, (refl, (refl, tt))))))

abbrev sent : Bytes
sent = codes "FILE a.txt 2\nhi"

sending : send_file_tls host calls (codes "files") (codes "a.txt") ≡ (true, sent)
unfolding send_file_tls connect_loop int_size load_file str_eq contains strstr has_prefix print_dec
sending = refl

abbrev records : List Bytes
records = codes "FILE a" ∷ codes ".txt 2\nh" ∷ codes "i" ∷ []

records-Brings : Brings records sent
records-Brings = record { carry = ((λ e. cc), ((λ e. cc), ((λ e. cc), tt))); whole = refl }

saving-Succeed : Succeed setup.saving (codes "down/a.txt")
unfolding print_dec
saving-Succeed = record {
  fits = omega arith;
  opens = refl;
  writes = tt;
  closes = refl;
  renames = refl;
}

tls_receive_thread-send_file_tls_example :
    tls_receive_thread setup (codes "down") records disk (codes "down/a.txt") ≡ some (codes "hi")
unfolding str_eq print_dec
tls_receive_thread-send_file_tls_example =
    tls_receive_thread-send_file_tls host calls (codes "files") (codes "a.txt") (codes "hi") sent
      setup (codes "down") records disk refl (omega arith) a_txt-IsWord (omega arith) sending
      records-Brings ready (omega arith) saving-Succeed

parse_args_runs :
    (parse_args
        (codes "--user" ∷ codes "bob" ∷ codes "--password" ∷ codes "pw" ∷ [])
        Settings.defaults
      ≡ some (record Settings.defaults {
        user = codes "bob";
        password = codes "pw";
        file_root = codes "files/bob";
        public_key = codes "PUBKEY-bob";
      }))
    × (parse_args (codes "--user" ∷ codes "bob" ∷ []) Settings.defaults ≡ none)
unfolding parse_args parse_flags str_eq
parse_args_runs = (refl, refl)
