-- ===== src/SimHttp/Scripts.antt =====
-- Requests that are answered by a script.
use zt_http.Common.{
  ℕ, ◌≤◌, ◌<◌, ◌≡◌, refl, ap, inl, inr, Bool, true, false, ◌&&◌, ℤ, negsuc, Option, some, List, [],
  ◌∷◌, ◌++◌, arith, Bytes, codes, length, length-append, Bool-cases, undefined, Outcome, ok, fault,
  ◌>>=◌,
}
use zt_http.CText.{str_case_eq}
use zt_http.SimHttp.{Connection}
use zt_http.Buffer.Stream.{joined}
use zt_http.SimHttp.Sends.{send_each_lem}
use zt_http.SimHttp.Replies.{cannot_execute, cannot_execute_texts}
use zt_http.SimHttp.Discard.{AreHeaders, block}
use zt_http.SimHttp.Requests.{discard_headers}
use zt_http.SimHttp.Cgi.{
  Kernel, in_env, child_environment, run_script, start_script, get_script, execute_cgi, status_text,
}

pub in_env_lem : (text : Bytes) → length text < 255 → in_env text ≡ ok text
unfolding in_env
in_env_lem text h = ground arith

in_env_over : (text : Bytes) → 255 ≤ length text → in_env text ≡ fault undefined
unfolding in_env
in_env_over text h = ground arith

abbrev pub environment : Bytes → List Bytes
environment query = codes "REQUEST_METHOD=GET" ∷ (codes "QUERY_STRING=" ++ query) ∷ []

pub environment_fits :
    (query : Bytes) (n : ℤ)
    → length query ≤ 241
    → child_environment (codes "GET") (some query) n ≡ ok (environment query)
unfolding child_environment str_case_eq
environment_fits query n h =
    rw
      (in_env_lem (codes "QUERY_STRING=" ++ query)
        (omega (arith, length-append (codes "QUERY_STRING=") query)))
      refl

pub environment_over :
    (query : Bytes) (n : ℤ)
    → 242 ≤ length query
    → child_environment (codes "GET") (some query) n ≡ fault undefined
unfolding child_environment str_case_eq
environment_over query n h =
    rw
      (in_env_over (codes "QUERY_STRING=" ++ query)
        (omega (arith, length-append (codes "QUERY_STRING=") query)))
      refl

-- A kernel whose pipes and forks succeed.
pub record Works (k : Kernel) : Type 0 where
  pub output : k.pipe_output ≡ true
  pub input : k.pipe_input ≡ true
  pub forks : k.forks ≡ true

abbrev pub can_run : Kernel → Bool
can_run k = k.pipe_output && k.pipe_input && k.forks

pub can_run-Works : (k : Kernel) → can_run k ≡ true → Works k
can_run-Works k h = record {
  output = ground (arith, h);
  input = ground (arith, h);
  forks = ground (arith, h);
}

-- Where a pipe or the fork fails, the client is told so.
pub start_script_fails :
    (k : Kernel) (c : ℕ) (path method : Bytes) (query : Option Bytes) (n : ℤ) (s : Connection)
    → can_run k ≡ false
    → start_script k c path method query n s
      ≡ ok (record s { output = s.output ++ joined cannot_execute_texts })
unfolding start_script cannot_execute
start_script_fails k c path method query n s h =
    let told = ap ok (send_each_lem s cannot_execute_texts) in
    elim (Bool-cases k.pipe_output) [
      | inr no_output ↦ rw no_output told
      | inl output ↦ elim (Bool-cases k.pipe_input) [
        | inr no_input ↦ rw (output, no_input) told
        | inl input ↦ elim (Bool-cases k.forks) [
          | inr no_fork ↦ rw (output, input, no_fork) told
          | inl fork ↦ absurd (ground (arith, h, output, input, fork))
        ]
      ]
    ]

-- A GET of a script that cannot be started.
pub script_fails :
    (k : Kernel) (stack stack' : Bytes) (c : ℕ) (path : Bytes) (query : Option Bytes)
    → (s : Connection) (texts : List Bytes) (body : Bytes) → AreHeaders texts
    → s.input ≡ block texts ++ body
    → can_run k ≡ false
    → execute_cgi k stack stack' c path (codes "GET") query s
      ≡ ok (record s { input = body; output = s.output ++ joined cannot_execute_texts })
unfolding execute_cgi get_script str_case_eq
script_fails k stack stack' c path query s texts body h held fails =
    let (buf', run) = discard_headers stack s texts body h held in
    rw run
      (start_script_fails k c path (codes "GET") query (negsuc 0) (record s { input = body }) fails)

pub script_runs :
    (k : Kernel) (stack stack' : Bytes) (c : ℕ) (path query : Bytes) (s : Connection)
    → (texts : List Bytes) (body : Bytes) (result : Outcome (List Bytes)) → Works k
    → AreHeaders texts
    → s.input ≡ block texts ++ body
    → child_environment (codes "GET") (some query) (negsuc 0) ≡ result
    → execute_cgi k stack stack' c path (codes "GET") (some query) s ≡ (
        result >>= λ env. ok (record s {
          input = body;
          output = ((s.output ++ status_text) ++ status_text) ++ k.run path env [];
        }))
unfolding execute_cgi get_script start_script run_script str_case_eq
script_runs k stack stack' c path query s texts body result works h held env =
    let (buf', run) = discard_headers stack s texts body h held in
    rw (run, works.output, works.input, works.forks, env) refl
