-- ===== src/Packet/Appends.antt =====
-- Each `Write` method of CPacket appends the bytes of its argument in network order.
use dummy_client.Common.{ℕ, ◌+◌, ◌/◌, ◌%◌, ◌^◌, ◌≤◌, ◌≡◌, ◌∙◌, refl, sym, ap, arith}
use mathlib.Core.Path.{subst, subst₂}
use dummy_client.Common.{some, List, [], ◌∷◌, ◌++◌, map, Bool, true, length, take, drop}
use dummy_client.Common.{
  length-append, length-map, length-drop, length-take, append_assoc, map-append, le→leb,
}
use dummy_client.Common.Int.{ℤ, pos, bits8, bits16, bits32, bits64}
use dummy_client.Bytes.{store16, store32, swap16, swap32}
use dummy_client.Bytes.Order.{big_endian16, big_endian32, store16-swap16, store32-swap32}
use dummy_client.Outcome.{Outcome, ok}
use dummy_client.Packet.State.{Cell, Packet, Session, M, ◌>>=◌, ◌>>◌, pure, cells, bind-ok, store}
use dummy_client.Packet.Memory.{store-append}
use dummy_client.Packet.Buffer.{check_data_buffer}
use dummy_client.Packet.Writes.{
  poke, put, write_tiny_int, write_short_int, write_int, write_big_int, source_bytes, write_char,
}
use dummy_client.Packet.Build.{Built, SameHead, SameHead-trans, with_packet}
use dummy_client.Packet.Room.{Grown, check_data_buffer-Built}

-- A run that ends with TRUE and has appended `xs` to the bytes `bs` of the session's packet.
pub record Appended {N : Type 0} (s : Session N) (bs xs : List ℕ) (r : Outcome (Bool × Session N))
    : Type 0 where
  pub packet : Packet
  pub slack : List Cell
  pub runs : r ≡ ok (true, with_packet s packet)
  pub built : Built packet (bs ++ xs) slack
  pub head : SameHead s.packet packet

module _ {N : Type 0} (s : Session N) (bs : List ℕ) where
  -- The packet after a copy of `xs` to its pointer, with the pointer moved on.
  abbrev put_packet : List Cell → List ℕ → Packet
  put_packet slack xs = record s.packet {
    str_data = some ((map some bs ++ map some xs) ++ drop (length xs) slack);
    data_pointer = s.packet.data_pointer + length xs;
  }

  store-Built :
      (slack : List Cell) (xs : List ℕ)
      → Built s.packet bs slack
      → length xs ≤ length slack
      → store s.packet.data_pointer xs (cells s.packet.str_data)
        ≡ ok ((map some bs ++ map some xs) ++ drop (length xs) slack)
  store-Built slack xs h fits = rw h.is_data (
      store-append s.packet.data_pointer (map some bs) slack xs
        (omega (arith, h.is_pointer, length-map {0, 0} some bs)) fits)

  put-runs :
      (slack : List Cell) (xs : List ℕ)
      → Built s.packet bs slack
      → length xs ≤ length slack
      → put xs s ≡ ok (tt, with_packet s (put_packet slack xs))
  unfolding put poke
  put-runs slack xs h fits = ground (arith, store-Built slack xs h fits)

  put-Built :
      (slack : List Cell) (xs : List ℕ)
      → Built s.packet bs slack
      → length xs ≤ length slack
      → Built (put_packet slack xs) (bs ++ xs) (drop (length xs) slack)
  put-Built slack xs h fits = record {
    is_data = ap (λ cs. cs ++ drop (length xs) slack) (sym (map-append some bs xs));
    is_length =
        h.is_length ∙ ap pos (omega (arith, length-append bs xs, length-drop (length xs) slack));
    is_pointer = omega (arith, length-append bs xs);
    bounded = omega (arith, length-append bs xs, length-drop (length xs) slack, h.bounded);
    roomy = omega (arith, length-append bs xs, length-drop (length xs) slack, h.roomy);
  }

-- The shape of the `Write` methods: room for the bytes, the bytes, TRUE.
pub Appended-put :
    {N : Type 0} (s : Session N) (bs : List ℕ) (slack : List Cell) (xs : List ℕ) {p : Packet}
    → SameHead s.packet p
    → Built p bs slack
    → length xs ≤ length slack
    → (m : M N (Unit {0})) → m s ≡ ok (tt, with_packet s p)
    → Appended s bs xs ((m >> (put xs >> pure true)) s)
Appended-put s bs slack xs {p} head h fits m e = record {
  packet = put_packet (with_packet s p) bs slack xs;
  slack = drop (length xs) slack;
  runs = ground (arith, e, put-runs (with_packet s p) bs slack xs h fits);
  built = put-Built (with_packet s p) bs slack xs h fits;
  head = record {
    category = head.category;
    command = head.command;
    client_sockfd = head.client_sockfd;
    logflag = head.logflag;
  };
}

pub write-Appended :
    {N : Type 0} (s : Session N) (bs : List ℕ) (slack : List Cell) (xs : List ℕ) (n : ℕ)
    → Built s.packet bs slack
    → length xs ≡ n
    → length bs + n ≤ 2 ^ 30
    → Appended s bs xs ((check_data_buffer (pos n) >> (put xs >> pure true)) s)
write-Appended s bs slack xs n h size small =
    let g : Grown s bs n (check_data_buffer (pos n) s) =
      check_data_buffer-Built s bs slack n h small in
    Appended-put s bs g.slack xs g.head g.built (omega (arith, g.room)) (check_data_buffer (pos n))
      g.runs

length-store16 : (w : ℕ) → length (store16 w) ≡ 2
unfolding store16
length-store16 w = refl

pub length-store32 : (w : ℕ) → length (store32 w) ≡ 4
unfolding store32
length-store32 w = refl

module _ {N : Type 0} (s : Session N) (bs : List ℕ) (slack : List Cell)
    (h : Built s.packet bs slack) where
  -- The lowest byte of the argument.
  pub write_tiny_int-Appended :
      (z : ℤ) → length bs + 1 ≤ 2 ^ 30 → Appended s bs (bits8 z ∷ []) (write_tiny_int z s)
  unfolding write_tiny_int
  write_tiny_int-Appended z small = write-Appended s bs slack (bits8 z ∷ []) 1 h refl small

  pub write_short_int-Appended :
      (z : ℤ)
      → length bs + 2 ≤ 2 ^ 30
      → Appended s bs (big_endian16 (bits16 z)) (write_short_int z s)
  unfolding write_short_int
  write_short_int-Appended z small =
      subst (λ xs. Appended s bs xs (write_short_int z s)) (store16-swap16 (bits16 z))
        (write-Appended s bs slack _ 2 h (length-store16 (swap16 (bits16 z))) small)

  pub write_int-Appended :
      (z : ℤ) → length bs + 4 ≤ 2 ^ 30 → Appended s bs (big_endian32 (bits32 z)) (write_int z s)
  unfolding write_int
  write_int-Appended z small =
      subst (λ xs. Appended s bs xs (write_int z s)) (store32-swap32 (bits32 z))
        (write-Appended s bs slack _ 4 h (length-store32 (swap32 (bits32 z))) small)

-- Two runs in a row append one after the other.
pub Appended-then :
    {N : Type 0} {s : Session N} {bs xs ys : List ℕ} (m : M N Bool) (f : Bool → M N Bool)
    → (a : Appended s bs xs (m s))
    → Appended (with_packet s a.packet) (bs ++ xs) ys (f true (with_packet s a.packet))
    → Appended s bs (xs ++ ys) ((m >>= f) s)
Appended-then {bs} {xs} {ys} m f a b = record {
  packet = b.packet;
  slack = b.slack;
  runs = bind-ok m f a.runs ∙ b.runs;
  built = subst (λ zs. Built b.packet zs b.slack) (append_assoc bs xs ys) b.built;
  head = SameHead-trans a.head b.head;
}

-- A step that leaves room for two copies, and the copies.
both_puts :
    {N : Type 0} (s : Session N) (bs : List ℕ) (slack : List Cell) (xs ys : List ℕ) (p : Packet)
    → SameHead s.packet p
    → Built p bs slack
    → length xs + length ys ≤ length slack
    → (m : M N (Unit {0})) → m s ≡ ok (tt, with_packet s p)
    → Appended s bs (xs ++ ys) ((m >> (put xs >> (put ys >> pure true))) s)
both_puts s bs slack xs ys p head h room m e =
    let once = with_packet s (put_packet (with_packet s p) bs slack xs) in
    let left : length ys ≤ length (drop (length xs) slack) =
      omega (arith, length-drop (length xs) slack) in
    let first : Built once.packet (bs ++ xs) (drop (length xs) slack) =
      put-Built (with_packet s p) bs slack xs h (omega arith) in
    record {
      packet = put_packet once (bs ++ xs) (drop (length xs) slack) ys;
      slack = drop (length ys) (drop (length xs) slack);
      runs = ground (
        arith,
        e,
        put-runs (with_packet s p) bs slack xs h,
        put-runs once (bs ++ xs) (drop (length xs) slack) ys first left,
      );
      built =
          subst
            (λ zs.
              Built (put_packet once (bs ++ xs) (drop (length xs) slack) ys) zs
                (drop (length ys) (drop (length xs) slack)))
            (append_assoc bs xs ys)
            (put-Built once (bs ++ xs) (drop (length xs) slack) ys first left);
      head = record {
        category = head.category;
        command = head.command;
        client_sockfd = head.client_sockfd;
        logflag = head.logflag;
      };
    }

module _ {N : Type 0} (s : Session N) (bs : List ℕ) (slack : List Cell)
    (h : Built s.packet bs slack) where
  pub write_char-Appended :
      (charvalue : List ℕ) (n : ℕ)
      → n ≤ length charvalue
      → length bs + n ≤ 2 ^ 30
      → Appended s bs (take n charvalue) (write_char charvalue (pos n) s)
  unfolding write_char source_bytes
  write_char-Appended charvalue n enough small = rw (le→leb n (length charvalue) enough) (
      write-Appended s bs slack (take n charvalue) n h (omega (arith, length-take n charvalue))
        small)

-- The two copies of `WriteBigInt`.
two_puts-Appended :
    {N : Type 0} (s : Session N) (bs : List ℕ) (slack : List Cell) (xs ys : List ℕ) (n : ℕ)
    → Built s.packet bs slack
    → length xs + length ys ≡ n
    → length bs + n ≤ 2 ^ 30
    → Appended s bs (xs ++ ys) ((check_data_buffer (pos n) >> (put xs >> (put ys >> pure true))) s)
two_puts-Appended s bs slack xs ys n h size small =
    let g : Grown s bs n (check_data_buffer (pos n) s) =
      check_data_buffer-Built s bs slack n h small in
    both_puts s bs g.slack xs ys g.packet g.head g.built (omega (arith, g.room))
      (check_data_buffer (pos n)) g.runs

module _ {N : Type 0} (s : Session N) (bs : List ℕ) (slack : List Cell)
    (h : Built s.packet bs slack) where
  -- On a packet under construction with 2 ^ 30 bytes at most, these eight included, `WriteBigInt`
  -- returns TRUE and appends the 64 bits of its argument, the highest byte first, behind the bytes
  -- already written, which it keeps with the packet's other fields.
  pub write_big_int-Appended :
      (z : ℤ)
      → length bs + 8 ≤ 2 ^ 30
      → Appended s bs
          (big_endian32 (bits64 z / 2 ^ 32) ++ big_endian32 (bits64 z % 2 ^ 32))
          (write_big_int z s)
  unfolding write_big_int
  write_big_int-Appended z small =
      subst₂ (λ xs ys. Appended s bs (xs ++ ys) (write_big_int z s))
        (store32-swap32 (bits64 z / 2 ^ 32)) (store32-swap32 (bits64 z % 2 ^ 32))
        (two_puts-Appended s bs slack _ _ 8 h
          (omega (
            arith,
            length-store32 (swap32 (bits64 z / 2 ^ 32)),
            length-store32 (swap32 (bits64 z % 2 ^ 32)),
          ))
          small)
