-- ===== src/App/PublicKey/Laws.antt =====
-- The answer to the public key command, and what it leaves of a signing.
use ledger_app.Base.{
  ℕ, List, [], ◌∷◌, ◌++◌, Bool, true, false, ◌≡◌, ◌∙◌, refl, ap, sym, if◌then◌else◌, length, take,
  drop, Outcome, ok, >>=-eq-ok, ok-injective, read_at, Bool-cases, inl, inr, then_of, else_of, ◌==◌,
  ◌||◌, ◌&&◌, not, ltb, take-append_all, drop-append_all,
}
use mathlib.Core.Path.{subst}
use ledger_app.Types.Key.{public_key_to_wif}
use ledger_app.App.Sign.{read_path}
use ledger_app.App.Device.{Device, PublicKeyContext}
use ledger_app.App.PublicKey.{
  Answer, answer, asynch, KeySource, c_string, get_public_key_and_set_result, write_public_key,
  public_key_context_of, handle_get_public_key,
}

-- How a host reads the answer: the key, its text, and what is behind.
abbrev read_behind : List ℕ → List ℕ → List ℕ × List ℕ × List ℕ
read_behind key [] = (key, [], [])
read_behind key (k ∷ tail) = (key, take k tail, drop k tail)

abbrev pub read_answer : List ℕ → List ℕ × List ℕ × List ℕ
read_answer [] = ([], [], [])
read_answer (n ∷ reply) = read_behind (take n reply) (drop n reply)

read_answer_lem :
    (n : ℕ) (key text more : List ℕ)
    → length key ≡ n
    → read_answer (n ∷ (key ++ (length text ∷ (text ++ more)))) ≡ (key, text, more)
read_answer_lem n key text more size =
    let behind = length text ∷ (text ++ more) in
    ap (λ x. read_behind x (drop n (key ++ behind))) (take-append_all n key behind size)
    ∙ ap (read_behind key) (drop-append_all n key behind size)
    ∙ ap (λ x. (key, x, drop (length text) (text ++ more)))
        (take-append_all (length text) text more refl)
    ∙ ap (λ x. (key, text, x)) (drop-append_all (length text) text more refl)

-- The answer with a key of 65 bytes.
get_public_key_and_set_result_reads :
    (k : PublicKeyContext)
    → length k.public_key ≡ 65
    → read_answer (get_public_key_and_set_result k)
      ≡ (k.public_key, c_string k.address_text, if k.get_chaincode then k.chain_code else [])
unfolding get_public_key_and_set_result
get_public_key_and_set_result_reads k size =
    read_answer_lem 65 k.public_key (c_string k.address_text) _ size

abbrev pub key_at : KeySource → List ℕ → List ℕ
key_at source path = let derived = source.derive path in source.public_key (derived.0)

-- The chain code where it is asked for.
abbrev pub chain_at : KeySource → List ℕ → ℕ → List ℕ
chain_at source path p2 = let derived = source.derive path in if p2 == 1 then derived.1 else []

-- What the context of the key of a path holds.
pub record IsKeyOf (source : KeySource) (path : List ℕ) (p2 : ℕ) (k : PublicKeyContext)
    : Type 0 where
  pub key : k.public_key ≡ key_at source path
  pub length_left : ℕ
  pub wif :
      public_key_to_wif source.platform (key_at source path) 65 60
      ≡ ok (k.address_text, length_left)
  pub chain : (if k.get_chaincode then k.chain_code else []) ≡ chain_at source path p2

chain_kept :
    (b : Bool) (code old : List ℕ)
    → (if b then (if b then code else old) else []) ≡ (if b then code else [])
chain_kept true code old = refl
chain_kept false code old = refl

public_key_context_of-IsKeyOf :
    (source : KeySource) (path : List ℕ) (p2 : ℕ) (old : PublicKeyContext) {k : PublicKeyContext}
    → public_key_context_of source path p2 old ≡ ok k
    → IsKeyOf source path p2 k
unfolding public_key_context_of
public_key_context_of-IsKeyOf source path p2 old e =
    let (w, ran, last) =
      >>=-eq-ok (public_key_to_wif source.platform (key_at source path) 65 60) _ e in
    subst (IsKeyOf source path p2) (ok-injective last) (record {
      key = refl;
      length_left = w.1;
      wif = ran;
      chain = chain_kept (p2 == 1) _ old.chain_code;
    })

-- A reply that reads back as the key of the path of the command: as many indices as the command's
-- first byte says, behind that byte.
pub record IsKeyReply (source : KeySource) (p2 : ℕ) (buffer reply : List ℕ) : Type 0 where
  pub path_length : ℕ
  pub path : List ℕ
  pub rest : List ℕ
  pub count : read_at buffer 0 ≡ ok path_length
  pub in_range : (ltb path_length 1 || ltb 10 path_length) ≡ false
  pub read : read_path path_length (drop 1 buffer) ≡ ok (path, rest)
  pub context : PublicKeyContext
  pub is_key : IsKeyOf source path p2 context
  pub reads :
      read_answer reply
      ≡ (key_at source path, c_string context.address_text, chain_at source path p2)

module _ {H : Type 0} (source : KeySource) where
  -- A command that is answered at once, with the path and the key's context.
  record Answered (p2 : ℕ) (buffer reply : List ℕ) (d d' : Device H) : Type 0 where
    path : List ℕ
    rest : List ℕ
    path_length : ℕ
    count : read_at buffer 0 ≡ ok path_length
    in_range : (ltb path_length 1 || ltb 10 path_length) ≡ false
    read : read_path path_length (drop 1 buffer) ≡ ok (path, rest)
    context : PublicKeyContext
    is_key : IsKeyOf source path p2 context
    sent : reply ≡ get_public_key_and_set_result context
    left : d' ≡ write_public_key source context d

  status_differs :
      (code : ℕ) (d d' : Device H) {reply : List ℕ}
      → (code == 0x9000) ≡ false
      → ◌≡◌ {A = Outcome (Answer × Device H)}
          (ok (answer code [], d))
          (ok (answer 0x9000 reply, d'))
      → ⊥
  status_differs code d d' other e =
      let same : code ≡ 0x9000 = ap status (ok-injective e) in
      let equal : (0x9000 == 0x9000) ≡ false = subst (λ n. (n == 0x9000) ≡ false) same other in cc
    where
      status : Answer × Device H → ℕ
      status (answer code _, _) = code
      status (asynch, _) = 0

  handle_get_public_key-Answered :
      (flow : Device H → Device H) (p2 : ℕ) (buffer : List ℕ) (d d' : Device H) {reply : List ℕ}
      → handle_get_public_key source flow 0 p2 buffer d ≡ ok (answer 0x9000 reply, d')
      → Answered p2 buffer reply d d'
  unfolding handle_get_public_key
  handle_get_public_key-Answered flow p2 buffer d d' {reply} e =
      let (n, read, e₁) = >>=-eq-ok (read_at buffer 0) _ e in
      elim (Bool-cases (ltb n 1 || ltb 10 n)) [
        | inl outside ↦ absurd (status_differs 0x6A80 d d' refl (then_of _ _ _ outside e₁))
        | inr inside ↦
            let e₂ = else_of _ _ _ inside e₁ in
            elim (Bool-cases (not (p2 == 1) && not (p2 == 0))) [
              | inl wrong ↦ absurd (status_differs 0x6B00 d d' refl (then_of _ _ _ wrong e₂))
              | inr right ↦
                  let (p, path_read, e₃) =
                    >>=-eq-ok (read_path n (drop 1 buffer)) _ (else_of _ _ _ right e₂) in
                  let (k, key_made, last) =
                    >>=-eq-ok (public_key_context_of source (p.0) p2 d.public_key_context) _ e₃ in
                  let same = ok-injective last in
                  record {
                    path = p.0;
                    rest = p.1;
                    path_length = n;
                    count = read;
                    in_range = inside;
                    read = path_read;
                    context = k;
                    is_key =
                        public_key_context_of-IsKeyOf source (p.0) p2 d.public_key_context key_made;
                    sent = sym (ap bytes same);
                    left = sym (ap (λ (q : Answer × Device H). q.1) same);
                  }
            ]
      ]
    where
      bytes : Answer × Device H → List ℕ
      bytes (answer _ reply, _) = reply
      bytes (asynch, _) = []

  -- Where the SDK's keys have 65 bytes, the reply to a public key command that is answered at once
  -- reads back as the key of the path of the command, which has as many indices as the command's
  -- first byte says, one to ten; and as the key's text up to its terminator, and the chain code
  -- exactly where it is asked for.
  pub handle_get_public_key_reads :
      (flow : Device H → Device H) (p2 : ℕ) (buffer : List ℕ) (d d' : Device H) {reply : List ℕ}
      → ((key : List ℕ) → length (source.public_key key) ≡ 65)
      → handle_get_public_key source flow 0 p2 buffer d ≡ ok (answer 0x9000 reply, d')
      → IsKeyReply source p2 buffer reply
  handle_get_public_key_reads flow p2 buffer d d' sizes e =
      let a = handle_get_public_key-Answered flow p2 buffer d d' e in
      let k = a.context in
      let is_key = a.is_key in
      record {
        path_length = a.path_length;
        path = a.path;
        rest = a.rest;
        count = a.count;
        in_range = a.in_range;
        read = a.read;
        context = k;
        is_key = is_key;
        reads =
            ap read_answer a.sent
            ∙ get_public_key_and_set_result_reads k (ap length is_key.key ∙ sizes _)
            ∙ ap (λ x. (x, c_string k.address_text, if k.get_chaincode then k.chain_code else []))
                is_key.key
            ∙ ap (λ x. (key_at source a.path, c_string k.address_text, x)) is_key.chain;
      }
