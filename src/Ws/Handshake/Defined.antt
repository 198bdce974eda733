-- ===== src/Ws/Handshake/Defined.antt =====
-- The handshake of the server reads nothing out of bounds.
use simple_socket.Connection.{Reader}
use simple_socket.Prelude.{
  ℕ, zero, suc, ◌≡◌, ◌≢◌, refl, Bool, not, Option, none, some, List, [], ◌∷◌, ◌++◌, ltb, length,
  Outcome, ok, throw, fault, socket_error, ◌>>=◌, Bool-cases, Option-cases, ◌⊎◌, inl, inr, arith,
}
use simple_socket.Text.{find, blank_line, nothing, codes, same, contains, to_lower, trim, is_empty}
use simple_socket.Ws.Handshake.{
  HttpHeaders, add_fields, pop_return, max_bytes, header_block, get_lines, header_rounds,
  read_http_header_block, parse_http_headers, demand, validate_common_handshake_request,
  validate_server_handshake_request, handshake, write_all, get, response,
}

bind-ne-fault {ℓ κ} :
    {A : Type ℓ} {B : Type κ} (m : Outcome A) (f : A → Outcome B)
    → m ≢ fault
    → ((a : A) → f a ≢ fault)
    → m >>= f ≢ fault
bind-ne-fault (ok a) f first later = later a
bind-ne-fault (throw e) f first later = λ t. absurd (cc)
bind-ne-fault fault f first later = absurd (first refl)

List-cases : (xs : List ℕ) → (xs ≡ []) ⊎ ((b : ℕ) × (bs : List ℕ) × (xs ≡ b ∷ bs))
List-cases [] = inl refl
List-cases (b ∷ bs) = inr (b, bs, refl)

header_rounds-ne-fault :
    {S : Type 0} (c : Reader S) (rounds : ℕ) (raw : List ℕ) (s : S)
    → header_rounds c rounds raw s ≢ fault
unfolding header_rounds
header_rounds-ne-fault c zero raw s = λ e. absurd (cc)
header_rounds-ne-fault c (suc rounds) raw s = elim (Option-cases (find blank_line raw)) [
  | inl t ↦ elim (List-cases (c.read s 1024).0) [
    | inl t' ↦ rw (t, t', header_rounds) (λ e. absurd (cc))
    | inr (b, bs, t') ↦
        let later = header_rounds-ne-fault c rounds (raw ++ b ∷ bs) (c.read s 1024).1 in
        elim (Bool-cases (ltb max_bytes (length (raw ++ b ∷ bs)))) [
          | inl much ↦ rw (t, t', much, header_rounds) (λ e. absurd (cc))
          | inr room ↦ rw (t, t', room, header_rounds) later
        ]
  ]
  | inr (i, t) ↦ rw (t, header_rounds) (λ e. absurd (cc))
]

parse_http_headers-ne-fault : (raw : List ℕ) → parse_http_headers raw ≢ fault
unfolding parse_http_headers
parse_http_headers-ne-fault raw =
    elim (get_lines (header_block raw))
      as (λ ls.
        (elim ls as (λ _. Outcome HttpHeaders) [
          | [] ↦ throw socket_error
          | line ∷ lines ↦
              ok (record { start_line = pop_return line; headers = add_fields lines nothing })
        ])
        ≢ fault) [ [] ↦ λ e. absurd (cc) | line ∷ lines ↦ λ e. absurd (cc) ]

demand-ne-fault : (o : Option (List ℕ)) (test : List ℕ → Bool) → demand o test ≢ fault
demand-ne-fault none test e = absurd (cc)
demand-ne-fault (some value) test e = ground (arith, e)

validate_common-ne-fault : (http : HttpHeaders) → validate_common_handshake_request http ≢ fault
unfolding validate_common_handshake_request
validate_common-ne-fault http =
    bind-ne-fault (demand (get http (codes "upgrade")) (λ v. same v (codes "websocket"))) _
      (demand-ne-fault (get http (codes "upgrade")) (λ v. same v (codes "websocket")))
      (λ t.
        demand-ne-fault (get http (codes "connection"))
          (λ v. contains (codes "upgrade") (to_lower v)))

validate_server-ne-fault : (http : HttpHeaders) → validate_server_handshake_request http ≢ fault
unfolding validate_server_handshake_request
validate_server-ne-fault http =
    let version = get http (codes "sec-websocket-version") in
    let key = get http (codes "sec-websocket-key") in
    bind-ne-fault _ _
      (bind-ne-fault _ _
        (bind-ne-fault (validate_common_handshake_request http) _ (validate_common-ne-fault http)
          (λ t. demand-ne-fault version (λ v. same (trim v) (codes "13"))))
        (λ t. demand-ne-fault key (λ v. not (is_empty (trim v)))))
      (λ t e. absurd (cc))

module _ {S : Type 0} (c : Reader S) (write : S → List ℕ → Option S)
    (generate : List ℕ → List ℕ) where
  write_all-ne-fault : (s : S) (text : List ℕ) → write_all c write generate s text ≢ fault
  write_all-ne-fault s text = elim (Option-cases (write s text)) [
    | inl t ↦ rw (t, write_all) (λ e. absurd (cc))
    | inr (s', t) ↦ rw (t, write_all) (λ e. absurd (cc))
  ]

  pub handshake-ne-fault : (s : S) → handshake c write generate s ≢ fault
  unfolding handshake read_http_header_block
  handshake-ne-fault s =
      bind-ne-fault _ _ (header_rounds-ne-fault c (suc (suc max_bytes)) [] s) (λ r.
        bind-ne-fault _ _ (parse_http_headers-ne-fault r.0) (λ http.
          bind-ne-fault _ _ (validate_server-ne-fault http) (λ client_key.
            write_all-ne-fault r.1
              (response (get http (codes "sec-websocket-protocol")) (generate client_key)))))
