-- ===== src/Http/Mime/Text.antt =====
-- `ReadMIMEHeader` on a text of fields, one to a line.
use go_grpc_http.Common.{
  true, false, none, some, List, [], ◌∷◌, ◌++◌, Bytes, codes, ◌≡◌, refl, ap, ◌∙◌, arith, All,
  All-append, append_assoc,
}
use go_grpc_http.Errors.{Error}
use go_grpc_http.Http.{Header}
use go_grpc_http.Http.Wire.{is_empty}
use go_grpc_http.Http.Mime.{
  lines, starts_blank, trim, cut_colon, append_value, add_line, parsed, ended, next_line,
  read_fields, read_lines, read_mime_header,
}
use go_grpc_http.Http.Mime.Lines.{
  IsInner, lines-line, text, IsLine, token-IsInner, value-IsInner, cut_colon_lem, line_of,
  front_unblank, trim-line, add_line_lem,
}

-- The header that the fields make, in their order.
abbrev pub collect : Header → List (Bytes × Bytes) → Header
collect m [] = m
collect m (p ∷ ps) = collect (append_value m p.0 p.1) ps

-- What `read_fields` does with a line that begins a field, and with the empty one.
field_next :
    (e : Error) (kv l : Bytes) (ls : List Bytes) (m m' : Header) (cut : Bytes × Bytes)
    → add_line m kv ≡ some m'
    → starts_blank l ≡ false
    → is_empty l ≡ false
    → cut_colon l ≡ some cut
    → read_fields e kv (l ∷ ls) m ≡ read_fields e (trim l) ls m'
unfolding read_fields
field_next e kv l ls m m' cut h b n c =
    let longer = read_fields e (kv ++ b' ' ∷ trim l) ls m in
    let next = λ (t : Header). read_fields e (trim l) ls t in
    ap (λ t. next_line t (add_line m kv) (is_empty l) (cut_colon l) ls longer next) b
    ∙ ap (λ t. next_line false t (is_empty l) (cut_colon l) ls longer next) h
    ∙ ap (λ t. ended t (cut_colon l) ls m' next) n
    ∙ ap (λ t. ended false t ls m' next) c

fields_end :
    (e : Error) (kv : Bytes) (ls : List Bytes) (m m' : Header)
    → add_line m kv ≡ some m'
    → read_fields e kv ([] ∷ ls) m ≡ parsed m' ls
unfolding read_fields cut_colon
fields_end e kv ls m m' h =
    let longer = read_fields e (kv ++ b' ' ∷ trim []) ls m in
    let next = λ (t : Header). read_fields e (trim []) ls t in
    ap (λ t. next_line false t true none ls longer next) h

line-front : (p : Bytes × Bytes) → IsLine p → starts_blank (p.0 ++ (codes ": " ++ p.1)) ≡ false
line-front p h = front_unblank p.0 (codes ": " ++ p.1) h.some_key h.token

line_full : (k v : Bytes) → is_empty k ≡ false → is_empty (k ++ v) ≡ false
line_full [] v h = cc
line_full (c ∷ k) v h = refl

lines-text :
    (p : Bytes × Bytes) (ps : List (Bytes × Bytes))
    → IsLine p
    → lines (text (p ∷ ps) ++ codes "\r\n")
      ≡ (p.0 ++ (codes ": " ++ p.1)) ∷ lines (text ps ++ codes "\r\n")
lines-text p ps h =
    let l = p.0 ++ (codes ": " ++ p.1) in
    ap lines (append_assoc l (codes "\r\n" ++ text ps) (codes "\r\n"))
    ∙ lines-line l (text ps ++ codes "\r\n") (
        All-append IsInner p.0 (codes ": " ++ p.1) (token-IsInner p.0 h.token)
          ((λ e. ground arith), ((λ e. ground arith), value-IsInner p.1 h.value)))

blank_line : lines (codes "\r\n") ≡ [] ∷ []
unfolding lines
blank_line = refl

fields-text :
    (e : Error) (p : Bytes × Bytes) (ps : List (Bytes × Bytes)) (m : Header)
    → IsLine p
    → All IsLine ps
    → read_fields e (line_of p) (lines (text ps ++ codes "\r\n")) m ≡ parsed (collect m (p ∷ ps)) []
fields-text e p [] m h hs =
    ap (λ t. read_fields e (line_of p) t m) blank_line
    ∙ fields_end e (line_of p) [] m (append_value m p.0 p.1) (add_line_lem m p h)
fields-text e p (q ∷ ps) m h hs =
    let l = q.0 ++ (codes ": " ++ q.1) in
    let rest = lines (text ps ++ codes "\r\n") in
    let m' = append_value m p.0 p.1 in
    ap (λ t. read_fields e (line_of p) t m) (lines-text q ps hs.0)
    ∙ field_next e (line_of p) l rest m m' (q.0, b' ' ∷ q.1) (add_line_lem m p h)
        (line-front q hs.0) (line_full q.0 (codes ": " ++ q.1) hs.0.some_key)
        (cut_colon_lem q.0 (b' ' ∷ q.1) hs.0.token)
    ∙ ap (λ t. read_fields e t rest m') (trim-line q hs.0)
    ∙ fields-text e q ps m' hs.0 hs.1

lines_first :
    (e : Error) (l : Bytes) (ls : List Bytes) (cut : Bytes × Bytes)
    → starts_blank l ≡ false
    → is_empty l ≡ false
    → cut_colon l ≡ some cut
    → read_lines e (l ∷ ls) ≡ read_fields e (trim l) ls []
unfolding read_lines
lines_first e l ls cut b n c = rw (b, n, c) refl

no_lines : (e : Error) → read_lines e ([] ∷ []) ≡ parsed [] []
unfolding read_lines
no_lines e = refl

-- A text of fields is read as the header that they make, with nothing left over.
pub read_mime_header-text :
    (e : Error) (ps : List (Bytes × Bytes))
    → All IsLine ps
    → read_mime_header e (text ps ++ codes "\r\n") ≡ parsed (collect [] ps) []
unfolding read_mime_header
read_mime_header-text e [] hs = ap (read_lines e) blank_line ∙ no_lines e
read_mime_header-text e (p ∷ ps) hs =
    let l = p.0 ++ (codes ": " ++ p.1) in
    let rest = lines (text ps ++ codes "\r\n") in
    ap (read_lines e) (lines-text p ps hs.0)
    ∙ lines_first e l rest (p.0, b' ' ∷ p.1) (line-front p hs.0)
        (line_full p.0 (codes ": " ++ p.1) hs.0.some_key)
        (cut_colon_lem p.0 (b' ' ∷ p.1) hs.0.token)
    ∙ ap (λ t. read_fields e t rest []) (trim-line p hs.0)
    ∙ fields-text e p ps [] hs.0 hs.1
