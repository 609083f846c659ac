-- ===== src/Commands/Served/Tests.antt =====
-- A manager that answers an alive report, at the second try to connect.
use dummy_client.Common.{
  ℕ, zero, suc, ◌≤◌, ◌≡◌, ◌≢◌, ◌∙◌, refl, sym, ap, arith, Option, none, some, List, [], ◌∷◌, ◌++◌,
  true, if◌then◌else◌, ◌==◌, length, take, drop, take_all, length-take, take-append-drop,
}
use mathlib.Core.Path.{ap₂}
use dummy_client.Common.Int.{ℤ, pos, pos_part, bits32}
use dummy_client.Bytes.Order.{big_endian32}
use dummy_client.Outcome.{ok}
use dummy_client.Packet.Writes.{until_nul, strlen}
use dummy_client.Os.{Os, ReadLaws, WriteLaws}
use dummy_client.Wire.Taken.{Taking}
use dummy_client.Wire.Frame.{frame}
use dummy_client.Wire.Deliver.{Prompt}
use dummy_client.Connect.{World}
use dummy_client.Connect.Reached.{Reaches, reached, refused}
use dummy_client.Commands.{cat_request, req_alive_status, command_alive_report}
use dummy_client.Commands.Reports.{alive_bytes}
use dummy_client.Commands.Tests.{conninfo}
use dummy_client.Commands.Served.{Manager, command_alive_report-answers}

-- How many tries have been made, and what is on the two streams.
record Link : Type 0 where
  tries : ℕ
  inbox : List ℕ
  outbox : List ℕ

abbrev request : List ℕ
request = frame cat_request req_alive_status (alive_bytes conninfo)

-- The number 0, for the whole request.
abbrev reply : List ℕ → List ℕ
reply got =
    if length got == length request
    then frame (pos 2) (pos 4) (big_endian32 (bits32 (pos 0)))
    else []

abbrev link_os : Os Link
link_os = record {
  socket = λ w. (pos 3, w);
  connect = λ fd host port w. (w.tries == 1, record w { tries = 1 });
  set_option = λ fd option w. w;
  read = λ fd n w. (some (take n w.inbox), record w { inbox = drop n w.inbox });
  write = λ fd bs w.
      (pos (length bs), record w { outbox = w.outbox ++ bs; inbox = reply (w.outbox ++ bs) });
  select = λ fd seconds w. (pos 1, w);
  close = λ fd w. (true, w);
}

abbrev sent : ℤ → Link → List ℕ
sent fd w = w.outbox

abbrev incoming : ℤ → Link → List ℕ
incoming fd w = w.inbox

bytes : Option (List ℕ) → List ℕ
bytes none = []
bytes (some bs) = bs

link-write :
    (fd : ℤ) (bs : List ℕ) (w w' : Link) (k : ℕ)
    → link_os.write fd bs w ≡ (pos k, w')
    → (k ≤ length bs) × (w'.outbox ≡ w.outbox ++ take k bs)
link-write fd bs w w' k e =
    let same : length bs ≡ k = ap (λ (r : ℤ × Link). pos_part r.0) e in
    let out : w.outbox ++ bs ≡ w'.outbox = ap (λ (r : ℤ × Link). r.1.outbox) e in
    (omega arith, sym out ∙ ap (λ xs. w.outbox ++ xs) (sym (take_all k bs (omega arith))))

link-read :
    (fd : ℤ) (n : ℕ) (w w' : Link) (bs : List ℕ)
    → link_os.read fd n w ≡ (some bs, w')
    → (length bs ≤ n) × (w.inbox ≡ bs ++ w'.inbox)
unfolding bytes
link-read fd n w w' bs e =
    let front : take n w.inbox ≡ bs = ap (λ (r : Option (List ℕ) × Link). bytes r.0) e in
    let back : drop n w.inbox ≡ w'.inbox = ap (λ (r : Option (List ℕ) × Link). r.1.inbox) e in
    (
      omega (arith, ap length front, length-take n w.inbox),
      sym (take-append-drop n w.inbox) ∙ ap₂ ◌++◌ front back,
    )

link-WriteLaws : WriteLaws link_os sent
link-WriteLaws = record { write_some = link-write; write_none = λ fd bs w w' k e. cc }

link-ReadLaws : ReadLaws link_os incoming
link-ReadLaws = record { read_some = link-read; read_none = λ fd n w w' e. cc }

link_takes :
    (fd : ℤ) (bs : List ℕ) (w : Link)
    → 1 ≤ length bs
    → (k : ℕ) × (w' : Link) × (link_os.write fd bs w ≡ (pos (suc k), w'))
link_takes fd [] w h = absurd (omega arith)
link_takes fd (b ∷ bs) w h = (length bs, _, refl)

link-Taking : Taking link_os
link-Taking = record { takes = link_takes }

taken :
    (n : ℕ) (bs : List ℕ) → 1 ≤ n → 1 ≤ length bs → (c : ℕ) × (cs : List ℕ) × (take n bs ≡ c ∷ cs)
taken zero bs h come = absurd (omega arith)
taken (suc n) [] h come = absurd (omega arith)
taken (suc n) (b ∷ bs) h come = (b, take n bs, refl)

link-Prompt : Prompt link_os incoming
link-Prompt = record {
  gives = λ fd n w h come.
      let (c, cs, e) = taken n w.inbox h come in
      (
        c,
        cs,
        record w { inbox = drop n w.inbox },
        ap (λ bs. (some bs, record w { inbox = drop n w.inbox })) e,
      );
}

link-answers :
    (bs : List ℕ) (n n' : Link) (k : ℕ)
    → link_os.write (pos 3) bs n ≡ (pos k, n')
    → n.inbox ≡ reply n.outbox
    → n'.inbox ≡ reply n'.outbox
link-answers bs n n' k e before =
    let after : record n { outbox = n.outbox ++ bs; inbox = reply (n.outbox ++ bs) } ≡ n' =
      ap (λ (r : ℤ × Link). r.1) e in
    sym (ap (λ (m : Link). m.inbox) after) ∙ ap (λ (m : Link). reply m.outbox) after

link-Manager : Manager link_os incoming sent reply (pos 3)
link-Manager = record {
  answers = link-answers;
  takes_header = λ bs n ten. (
    _,
    ap (λ k. (pos k, record n { outbox = n.outbox ++ bs; inbox = reply (n.outbox ++ bs) })) ten,
  );
  gives_header = λ n ten. (take 10 n.inbox, _, refl, length-take 10 n.inbox ∙ omega (arith, ten));
}

abbrev unlinked : World Link
unlinked = record { net = record { tries = 0; inbox = []; outbox = [] }; trace = [] }

abbrev linked : Link
linked = record { tries = 1; inbox = []; outbox = [] }

three : pos 3 ≢ pos 0
three e = absurd (omega (arith, ap pos_part e))

second_try : Reaches link_os conninfo.ip conninfo.port (pos 3) linked 1 unlinked.net
second_try = refused (pos 3) true refl (λ e. cc) refl refl (reached refl three (λ e. cc) refl refl)

command_alive_report-answers_example :
    (w' : World Link) × (command_alive_report link_os conninfo unlinked ≡ ok (true, w'))
unfolding until_nul strlen
command_alive_report-answers_example =
    command_alive_report-answers link_os incoming sent link-ReadLaws link-WriteLaws link-Prompt
      link-Taking reply (pos 3) link-Manager (pos 2) (pos 4) (omega arith) (omega arith) (pos 0)
      (omega arith) (λ e. absurd (omega (arith, ap pos_part e))) conninfo unlinked 1 linked []
      second_try (omega arith) (omega arith) refl refl
