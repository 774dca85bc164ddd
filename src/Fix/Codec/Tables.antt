-- ===== src/Fix/Codec/Tables.antt =====
-- src/fix/codec.rs: the tables of fields, for each type of message.
use rust_trader.Base.{ℕ, Bool, ◌||◌, Option, none, some, List, [], ◌∷◌, if◌then◌else◌}
use rust_trader.Base.Eq.{Text, eqb_text, codes}

abbrev pub is_kind : Text → Text → Bool
is_kind = eqb_text

-- The scalar fields of each type of message.
unfoldable pub scalar_fields : Text → List ℕ
scalar_fields kind =
    if is_kind kind (codes "A")
    then (98 ∷ 108 ∷ 141 ∷ 383 ∷ [])
    else if is_kind kind (codes "0") || is_kind kind (codes "1")
    then (112 ∷ [])
    else if is_kind kind (codes "2")
    then (7 ∷ 16 ∷ [])
    else if is_kind kind (codes "3")
    then (45 ∷ 371 ∷ 372 ∷ 373 ∷ 58 ∷ [])
    else if is_kind kind (codes "4")
    then (123 ∷ 36 ∷ [])
    else if is_kind kind (codes "5")
    then (58 ∷ [])
    else if is_kind kind (codes "D")
    then (11 ∷ 109 ∷ 76 ∷ 1 ∷ 63 ∷ 64 ∷ 21 ∷ 18 ∷ 110 ∷ 111 ∷ 100 ∷ 81 ∷ 55 ∷ 65 ∷ 48 ∷ 22 ∷ 167
        ∷ 200 ∷ 205 ∷ 201 ∷ 202 ∷ 206 ∷ 231 ∷ 223 ∷ 207 ∷ 106 ∷ 107 ∷ 140 ∷ 54 ∷ 114 ∷ 60 ∷ 38 ∷ 152
        ∷ 40 ∷ 44 ∷ 99 ∷ 15 ∷ 376 ∷ 377 ∷ 23 ∷ 117 ∷ 59 ∷ 168 ∷ 432 ∷ 126 ∷ 427 ∷ 12 ∷ 13 ∷ 47 ∷ 121
        ∷ 120 ∷ 58 ∷ 193 ∷ 192 ∷ 77 ∷ 203 ∷ 204 ∷ 210 ∷ 211 ∷ 388 ∷ 389 ∷ 439 ∷ 440 ∷ [])
    else if is_kind kind (codes "F")
    then (41 ∷ 37 ∷ 11 ∷ 66 ∷ 1 ∷ 109 ∷ 76 ∷ 55 ∷ 65 ∷ 48 ∷ 22 ∷ 167 ∷ 200 ∷ 205 ∷ 201 ∷ 202 ∷ 206
        ∷ 231 ∷ 223 ∷ 207 ∷ 106 ∷ 107 ∷ 54 ∷ 60 ∷ 38 ∷ 152 ∷ 376 ∷ 377 ∷ 58 ∷ [])
    else if is_kind kind (codes "G")
    then (37 ∷ 109 ∷ 76 ∷ 41 ∷ 11 ∷ 66 ∷ 1 ∷ 63 ∷ 64 ∷ 21 ∷ 18 ∷ 110 ∷ 111 ∷ 100 ∷ 55 ∷ 65 ∷ 48 ∷ 22
        ∷ 167 ∷ 200 ∷ 205 ∷ 201 ∷ 202 ∷ 206 ∷ 231 ∷ 223 ∷ 207 ∷ 106 ∷ 107 ∷ 54 ∷ 60 ∷ 38 ∷ 152 ∷ 40
        ∷ 44 ∷ 99 ∷ 211 ∷ 388 ∷ 389 ∷ 376 ∷ 377 ∷ 15 ∷ 59 ∷ 168 ∷ 432 ∷ 126 ∷ 427 ∷ 12 ∷ 13 ∷ 47
        ∷ 121 ∷ 120 ∷ 58 ∷ 193 ∷ 192 ∷ 77 ∷ 203 ∷ 204 ∷ 210 ∷ 114 ∷ 439 ∷ 440 ∷ [])
    else if is_kind kind (codes "8")
    then (37 ∷ 198 ∷ 11 ∷ 41 ∷ 109 ∷ 76 ∷ 66 ∷ 17 ∷ 20 ∷ 19 ∷ 150 ∷ 39 ∷ 103 ∷ 378 ∷ 1 ∷ 63 ∷ 64
        ∷ 55 ∷ 65 ∷ 48 ∷ 22 ∷ 167 ∷ 200 ∷ 205 ∷ 201 ∷ 202 ∷ 206 ∷ 231 ∷ 223 ∷ 207 ∷ 106 ∷ 107 ∷ 54
        ∷ 38 ∷ 152 ∷ 40 ∷ 44 ∷ 99 ∷ 211 ∷ 388 ∷ 389 ∷ 15 ∷ 376 ∷ 377 ∷ 59 ∷ 168 ∷ 432 ∷ 126 ∷ 18
        ∷ 47 ∷ 32 ∷ 31 ∷ 194 ∷ 195 ∷ 30 ∷ 336 ∷ 29 ∷ 151 ∷ 14 ∷ 6 ∷ 424 ∷ 425 ∷ 426 ∷ 427 ∷ 75 ∷ 60
        ∷ 113 ∷ 12 ∷ 13 ∷ 381 ∷ 119 ∷ 120 ∷ 155 ∷ 156 ∷ 21 ∷ 110 ∷ 111 ∷ 77 ∷ 210 ∷ 58 ∷ 193 ∷ 192
        ∷ 439 ∷ 440 ∷ 442 ∷ [])
    else if is_kind kind (codes "9")
    then (37 ∷ 198 ∷ 11 ∷ 41 ∷ 39 ∷ 109 ∷ 76 ∷ 66 ∷ 1 ∷ 60 ∷ 434 ∷ 102 ∷ 58 ∷ [])
    else if is_kind kind (codes "i")
    then (131 ∷ 117 ∷ 301 ∷ 293 ∷ 294 ∷ [])
    else if is_kind kind (codes "b")
    then (131 ∷ 117 ∷ 297 ∷ 300 ∷ 301 ∷ 336 ∷ 58 ∷ [])
    else if is_kind kind (codes "d")
    then (320 ∷ 322 ∷ 323 ∷ 393 ∷ 55 ∷ 65 ∷ 48 ∷ 22 ∷ 167 ∷ 200 ∷ 205 ∷ 201 ∷ 202 ∷ 206 ∷ 231 ∷ 223
        ∷ 207 ∷ 106 ∷ 107 ∷ 15 ∷ 336 ∷ 58 ∷ [])
    else if is_kind kind (codes "j")
    then (45 ∷ 372 ∷ 379 ∷ 380 ∷ 58 ∷ [])
    else []

-- `None` is a type whose fields are not checked.
unfoldable pub required_fields : Text → Option (List ℕ)
required_fields kind =
    if is_kind kind (codes "A")
    then some (98 ∷ 108 ∷ [])
    else if is_kind kind (codes "0") || is_kind kind (codes "5")
    then some []
    else if is_kind kind (codes "1")
    then some (112 ∷ [])
    else if is_kind kind (codes "2")
    then some (7 ∷ 16 ∷ [])
    else if is_kind kind (codes "3")
    then some (45 ∷ [])
    else if is_kind kind (codes "4")
    then some (36 ∷ [])
    else if is_kind kind (codes "D")
    then some (11 ∷ 21 ∷ 55 ∷ 54 ∷ 60 ∷ 40 ∷ 38 ∷ [])
    else if is_kind kind (codes "F")
    then some (11 ∷ 41 ∷ 55 ∷ 54 ∷ 60 ∷ [])
    else if is_kind kind (codes "G")
    then some (11 ∷ 41 ∷ 21 ∷ 55 ∷ 54 ∷ 60 ∷ 40 ∷ 38 ∷ [])
    else if is_kind kind (codes "8")
    then some (37 ∷ 17 ∷ 20 ∷ 150 ∷ 39 ∷ 55 ∷ 54 ∷ 151 ∷ 14 ∷ 6 ∷ [])
    else if is_kind kind (codes "9")
    then some (37 ∷ 11 ∷ 41 ∷ 39 ∷ 434 ∷ [])
    else if is_kind kind (codes "i")
    then some (117 ∷ 296 ∷ 302 ∷ 311 ∷ 304 ∷ 295 ∷ 299 ∷ 55 ∷ [])
    else if is_kind kind (codes "b")
    then some (297 ∷ [])
    else if is_kind kind (codes "d")
    then some (320 ∷ 322 ∷ 323 ∷ 393 ∷ [])
    else if is_kind kind (codes "j")
    then some (372 ∷ 380 ∷ [])
    else none

abbrev pub header_fields : List ℕ
header_fields =
    35 ∷ 49 ∷ 56 ∷ 115 ∷ 128 ∷ 34 ∷ 50 ∷ 142 ∷ 57 ∷ 143 ∷ 116 ∷ 144 ∷ 129 ∷ 145 ∷ 43 ∷ 97 ∷ 52 ∷ 122
    ∷ 347 ∷ 369 ∷ 370 ∷ []

abbrev pub quote_set_fields : List ℕ
quote_set_fields =
    302 ∷ 311 ∷ 312 ∷ 309 ∷ 305 ∷ 310 ∷ 313 ∷ 314 ∷ 315 ∷ 316 ∷ 317 ∷ 436 ∷ 435 ∷ 308 ∷ 306 ∷ 307
    ∷ 367 ∷ 304 ∷ 295 ∷ []

abbrev pub quote_entry_fields : List ℕ
quote_entry_fields =
    299 ∷ 55 ∷ 65 ∷ 48 ∷ 22 ∷ 167 ∷ 200 ∷ 205 ∷ 201 ∷ 202 ∷ 206 ∷ 231 ∷ 223 ∷ 207 ∷ 106 ∷ 107 ∷ 132
    ∷ 133 ∷ 134 ∷ 135 ∷ 62 ∷ 188 ∷ 190 ∷ 189 ∷ 191 ∷ 60 ∷ 336 ∷ 64 ∷ 40 ∷ 193 ∷ 192 ∷ 15 ∷ []
