-- ===== src/Manager/Socket.antt =====
-- pkg/manager/daemon_event.go: `buildNextAPISocket`. A name is the list of its characters' codes.
use Prim.Native.Nat.{◌/◌}
use nydus_snapshotter.Base.{
  ℕ, zero, suc, ◌≡◌, ◌+◌, ◌-◌, ◌*◌, ◌%◌, ◌^◌, ◌<◌, ◌&&◌, refl, ap, ◌∙◌, Bool, true, false, List, [],
  ◌∷◌, ◌++◌, Error, failure, Result, ok, err, if◌then◌else◌, ltb, leb, ◌=ℕ=◌, arith, lt→ltb,
}

abbrev pub Name : Type 0
Name = List ℕ

-- `"%d"` of a number that is not negative, each digit put before those that follow.
unfoldable pub digits_of : (fuel : ℕ) → ℕ → Name → Name
digits_of zero n out = out
digits_of (suc fuel) n out =
    let more = digits_of fuel (n / 10) ((48 + n % 10) ∷ out) in
    if ltb n 10 then (48 + n) ∷ out else more

unfoldable pub digits : ℕ → Name
unfolding digits_of
digits n = digits_of (suc n) n []

abbrev pub is_digit : ℕ → Bool
is_digit c = leb 48 c && leb c 57

-- `r.Find` for `[0-9]+`: the first run of digits, empty where there is none.
unfoldable pub digit_run : Name → Name
digit_run [] = []
digit_run (c ∷ cs) = let rest = digit_run cs in if is_digit c then c ∷ rest else []

unfoldable pub find_digits : Name → Name
unfolding digit_run
find_digits [] = []
find_digits (c ∷ cs) = let rest = find_digits cs in if is_digit c then digit_run (c ∷ cs) else rest

-- `strings.Split(cur, ".")`, as the part before the first dot and the other parts.
abbrev pub before_dot : ℕ → Name × List Name → Name × List Name
before_dot c (first, others) = if c =ℕ= 46 then ([], first ∷ others) else (c ∷ first, others)

unfoldable pub split_dot : Name → Name × List Name
split_dot [] = ([], [])
split_dot (c ∷ cs) = before_dot c (split_dot cs)

abbrev pub value : ℕ → Name → ℕ
value n [] = n
value n (c ∷ cs) = value (n * 10 + (c - 48)) cs

abbrev pub out_of_range : Error
out_of_range = failure 80

abbrev pub invalid_format : Error
invalid_format = failure 81

-- `strconv.Atoi` of digits, for a 64-bit int.
abbrev pub atoi : Name → Result ℕ
atoi cs = if ltb (value 0 cs) (2 ^ 63) then ok (value 0 cs) else err out_of_range

-- "api", and ".sock".
abbrev pub api : Name
api = 97 ∷ 112 ∷ 105 ∷ []

abbrev pub dot_sock : Name
dot_sock = 46 ∷ 115 ∷ 111 ∷ 99 ∷ 107 ∷ []

unfoldable pub api_socket : ℕ → Name
unfolding digits digits_of
api_socket n = api ++ digits n ++ dot_sock

-- `fmt.Sprintf("api%d.sock", num)`, where the last `num++` wraps to the least int.
unfoldable pub numbered : ℕ → Name
unfolding api_socket
numbered n = if ltb n (2 ^ 63) then api_socket n else api ++ (45 ∷ digits n) ++ dot_sock

unfoldable pub next_number : Result ℕ → Result Name
unfolding numbered
next_number (err e) = err e
next_number (ok n) = ok (numbered (suc n))

unfoldable pub next_of : Name → Result Name
unfolding next_number
next_of [] = ok (numbered 1)
next_of (c ∷ cs) = next_number (atoi (c ∷ cs))

unfoldable pub of_parts : Name × List Name → Result Name
unfolding find_digits next_of
of_parts (first, []) = err invalid_format
of_parts (first, second ∷ []) = next_of (find_digits first)
of_parts (first, second ∷ third ∷ others) = err invalid_format

unfoldable pub build_next_api_socket : Name → Result Name
unfolding split_dot of_parts
build_next_api_socket cur = of_parts (split_dot cur)

test_first : build_next_api_socket (api ++ dot_sock) ≡ ok (api_socket 1)
unfolding build_next_api_socket split_dot find_digits digit_run digits_of of_parts next_of
    next_number numbered api_socket digits
test_first = refl

test_next : build_next_api_socket (api_socket 19) ≡ ok (api_socket 20)
unfolding build_next_api_socket split_dot find_digits digit_run digits_of of_parts next_of
    next_number numbered api_socket digits
test_next = refl

-- Reading what was printed.
value-digits_of :
    (fuel n : ℕ) (out : Name) → n < fuel → value 0 (digits_of fuel n out) ≡ value n out
unfolding digits_of
value-digits_of zero n out h = elim h [ ]
value-digits_of (suc fuel) n out h =
    by_size (ltb n 10) refl (value-digits_of fuel (n / 10) ((48 + n % 10) ∷ out))
  where
    by_size :
        (b : Bool)
        → ltb n 10 ≡ b
        → (n / 10 < fuel
            → value 0 (digits_of fuel (n / 10) ((48 + n % 10) ∷ out))
              ≡ value (n / 10) ((48 + n % 10) ∷ out))
        → value 0 (if b then (48 + n) ∷ out else digits_of fuel (n / 10) ((48 + n % 10) ∷ out))
          ≡ value n out
    by_size true s ih = ap (λ m. value m out) (omega arith)
    by_size false s ih = ih (ground (arith, s, h)) ∙ ap (λ m. value m out) (omega arith)

abbrev all_digits : Name → Bool
all_digits [] = true
all_digits (c ∷ cs) = is_digit c && all_digits cs

digits_of_are :
    (fuel n : ℕ) (out : Name) → all_digits out ≡ true → all_digits (digits_of fuel n out) ≡ true
unfolding digits_of
digits_of_are zero n out h = h
digits_of_are (suc fuel) n out h =
    by_size (ltb n 10) refl (digits_of_are fuel (n / 10) ((48 + n % 10) ∷ out))
  where
    digit : (m : ℕ) → m < 10 → all_digits ((48 + m) ∷ out) ≡ true
    digit m lt = ground (arith, lt, h)

    by_size :
        (b : Bool)
        → ltb n 10 ≡ b
        → (all_digits ((48 + n % 10) ∷ out) ≡ true
            → all_digits (digits_of fuel (n / 10) ((48 + n % 10) ∷ out)) ≡ true)
        → all_digits (if b then (48 + n) ∷ out else digits_of fuel (n / 10) ((48 + n % 10) ∷ out))
          ≡ true
    by_size true s ih = digit n (ground (arith, s))
    by_size false s ih = ih (digit (n % 10) (omega arith))

abbrev IsCons : Name → Type 0
IsCons ds = (c : ℕ) × (cs : Name) × (ds ≡ c ∷ cs)

digits_of-IsCons : (fuel n c : ℕ) (out : Name) → IsCons (digits_of fuel n (c ∷ out))
unfolding digits_of
digits_of-IsCons zero n c out = (c, out, refl)
digits_of-IsCons (suc fuel) n c out =
    by_size (ltb n 10) (digits_of-IsCons fuel (n / 10) (48 + n % 10) (c ∷ out))
  where
    by_size :
        (b : Bool)
        → IsCons (digits_of fuel (n / 10) ((48 + n % 10) ∷ c ∷ out))
        → IsCons
            (if b then (48 + n) ∷ c ∷ out else digits_of fuel (n / 10) ((48 + n % 10) ∷ c ∷ out))
    by_size true h = (48 + n, c ∷ out, refl)
    by_size false h = h

digits-IsCons : (n : ℕ) → IsCons (digits n)
unfolding digits digits_of
digits-IsCons n = by_size (ltb n 10)
  where
    by_size :
        (b : Bool) → IsCons (if b then (48 + n) ∷ [] else digits_of n (n / 10) ((48 + n % 10) ∷ []))
    by_size true = (48 + n, [], refl)
    by_size false = digits_of-IsCons n (n / 10) (48 + n % 10) []

split_dot_digits :
    (ds : Name)
    → all_digits ds ≡ true
    → split_dot (ds ++ dot_sock) ≡ (ds, (115 ∷ 111 ∷ 99 ∷ 107 ∷ []) ∷ [])
unfolding split_dot
split_dot_digits [] h = refl
split_dot_digits (c ∷ cs) h = ap (before_dot c) (split_dot_digits cs (rest h)) ∙ no_dot h
  where
    rest : all_digits (c ∷ cs) ≡ true → all_digits cs ≡ true
    rest p = ground (arith, p)

    no_dot :
        all_digits (c ∷ cs) ≡ true
        → before_dot c (cs, (115 ∷ 111 ∷ 99 ∷ 107 ∷ []) ∷ [])
          ≡ (c ∷ cs, (115 ∷ 111 ∷ 99 ∷ 107 ∷ []) ∷ [])
    no_dot p = ground (arith, p)

digit_run_digits : (ds : Name) → all_digits ds ≡ true → digit_run ds ≡ ds
unfolding digit_run
digit_run_digits [] h = refl
digit_run_digits (c ∷ cs) h = ground (arith, h, digit_run_digits cs)

find_digits_digits : (ds : Name) → all_digits ds ≡ true → find_digits ds ≡ ds
unfolding find_digits
find_digits_digits [] h = refl
find_digits_digits (c ∷ cs) h = ground (arith, h, digit_run_digits (c ∷ cs))

next_digits : (n : ℕ) → n < 2 ^ 63 → next_of (digits n) ≡ ok (numbered (suc n))
unfolding next_of next_number digits
next_digits n lt =
    by_digits (digits n) (digits-IsCons n) (value-digits_of (suc n) n [] (omega arith))
  where
    by_value : (c : ℕ) (cs : Name) → value 0 (c ∷ cs) ≡ n → next_of (c ∷ cs) ≡ ok (numbered (suc n))
    by_value c cs v = ap next_number (
        ap (λ m. if ltb m (2 ^ 63) then ok m else err out_of_range) v
        ∙ ap (λ b. if b then ok n else err out_of_range) (lt→ltb n (2 ^ 63) lt))

    by_digits : (ds : Name) → IsCons ds → value 0 ds ≡ n → next_of ds ≡ ok (numbered (suc n))
    by_digits [] (c, cs, e) v = ground (arith, e)
    by_digits (d ∷ ds) e v = by_value d ds v

-- The name after `api.sock` is `api1.sock`; the name after `apiN.sock` is that with N + 1, for each
-- N below the greatest int, so that successive upgrades listen on different sockets.
pub build_next_api_socket_lem :
    (n : ℕ)
    → suc n < 2 ^ 63
    → (build_next_api_socket (api ++ dot_sock) ≡ ok (api_socket 1))
      × (build_next_api_socket (api_socket n) ≡ ok (api_socket (suc n)))
unfolding build_next_api_socket split_dot find_digits digit_run of_parts next_of next_number
    numbered api_socket
build_next_api_socket_lem n lt = (
  refl,
  ap (λ p. of_parts (before_dot 97 (before_dot 112 (before_dot 105 p))))
        (split_dot_digits (digits n) digits_are)
      ∙ ap next_of (find_digits_digits (digits n) digits_are)
      ∙ next_digits n (omega arith)
      ∙ ap (λ b. ok (if b then api_socket (suc n) else api ++ (45 ∷ digits (suc n)) ++ dot_sock))
          (lt→ltb (suc n) (2 ^ 63) (omega arith)),
)
  where
    digits_are : all_digits (digits n) ≡ true
    digits_are = digits_of_are (suc n) n [] refl
