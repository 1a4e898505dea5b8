-- ===== src/Passphrase/Words.antt =====
-- internal/passphrase: the word lists of generator.go.
use thimble.Base.{List, [], ◌∷◌, Bytes, codes}

abbrev pub word_starts : List Bytes
word_starts =
    codes "amber"
    ∷ codes "anchor"
    ∷ codes "apple"
    ∷ codes "april"
    ∷ codes "arbor"
    ∷ codes "arctic"
    ∷ codes "arrow"
    ∷ codes "atlas"
    ∷ codes "autumn"
    ∷ codes "badger"
    ∷ codes "bamboo"
    ∷ codes "beacon"
    ∷ codes "berry"
    ∷ codes "birch"
    ∷ codes "bison"
    ∷ codes "blossom"
    ∷ codes "bluebird"
    ∷ codes "border"
    ∷ codes "bronze"
    ∷ codes "brook"
    ∷ codes "canyon"
    ∷ codes "cedar"
    ∷ codes "cherry"
    ∷ codes "cinder"
    ∷ codes "citrus"
    ∷ codes "clover"
    ∷ codes "cobalt"
    ∷ codes "comet"
    ∷ codes "coral"
    ∷ codes "cotton"
    ∷ codes "coyote"
    ∷ codes "crimson"
    ∷ codes "crystal"
    ∷ codes "dawn"
    ∷ codes "desert"
    ∷ codes "drift"
    ∷ codes "eagle"
    ∷ codes "earth"
    ∷ codes "ember"
    ∷ codes "falcon"
    ∷ codes "feather"
    ∷ codes "field"
    ∷ codes "firefly"
    ∷ codes "forest"
    ∷ codes "fossil"
    ∷ codes "frost"
    ∷ codes "garden"
    ∷ codes "glacier"
    ∷ codes "golden"
    ∷ codes "gravel"
    ∷ codes "harbor"
    ∷ codes "hazel"
    ∷ codes "heron"
    ∷ codes "hollow"
    ∷ codes "honey"
    ∷ codes "island"
    ∷ codes "ivory"
    ∷ codes "jasper"
    ∷ codes "juniper"
    ∷ codes "kestrel"
    ∷ codes "lagoon"
    ∷ codes "lantern"
    ∷ codes "laurel"
    ∷ codes "lemon"
    ∷ codes "lilac"
    ∷ codes "lotus"
    ∷ codes "lunar"
    ∷ codes "maple"
    ∷ codes "meadow"
    ∷ codes "meteor"
    ∷ codes "midnight"
    ∷ codes "misty"
    ∷ codes "mossy"
    ∷ codes "mountain"
    ∷ codes "nectar"
    ∷ codes "night"
    ∷ codes "north"
    ∷ codes "ocean"
    ∷ codes "olive"
    ∷ codes "onyx"
    ∷ codes "orchard"
    ∷ codes "otter"
    ∷ codes "pebble"
    ∷ codes "pepper"
    ∷ codes "pine"
    ∷ codes "planet"
    ∷ codes "plum"
    ∷ codes "prairie"
    ∷ codes "quartz"
    ∷ codes "raven"
    ∷ codes "river"
    ∷ codes "robin"
    ∷ codes "rocket"
    ∷ codes "rosewood"
    ∷ codes "rowan"
    ∷ codes "ruby"
    ∷ codes "saddle"
    ∷ codes "saffron"
    ∷ codes "scarlet"
    ∷ codes "shadow"
    ∷ codes "silver"
    ∷ codes "skyward"
    ∷ codes "solar"
    ∷ codes "sparrow"
    ∷ codes "spring"
    ∷ codes "spruce"
    ∷ codes "starling"
    ∷ codes "stone"
    ∷ codes "storm"
    ∷ codes "summer"
    ∷ codes "sunset"
    ∷ codes "swift"
    ∷ codes "timber"
    ∷ codes "topaz"
    ∷ codes "trail"
    ∷ codes "tulip"
    ∷ codes "tundra"
    ∷ codes "valley"
    ∷ codes "velvet"
    ∷ codes "violet"
    ∷ codes "walnut"
    ∷ codes "willow"
    ∷ codes "winter"
    ∷ codes "wolf"
    ∷ codes "wonder"
    ∷ codes "woodland"
    ∷ codes "yellow"
    ∷ codes "zephyr"
    ∷ []

abbrev pub word_ends : List Bytes
word_ends =
    codes "bank"
    ∷ codes "bark"
    ∷ codes "beam"
    ∷ codes "bell"
    ∷ codes "berry"
    ∷ codes "bird"
    ∷ codes "bloom"
    ∷ codes "board"
    ∷ codes "branch"
    ∷ codes "breeze"
    ∷ codes "bridge"
    ∷ codes "brook"
    ∷ codes "candle"
    ∷ codes "castle"
    ∷ codes "cave"
    ∷ codes "circle"
    ∷ codes "cliff"
    ∷ codes "cloud"
    ∷ codes "coast"
    ∷ codes "crane"
    ∷ codes "creek"
    ∷ codes "crest"
    ∷ codes "crown"
    ∷ codes "dale"
    ∷ codes "dance"
    ∷ codes "dawn"
    ∷ codes "dewfall"
    ∷ codes "dream"
    ∷ codes "drift"
    ∷ codes "drop"
    ∷ codes "feather"
    ∷ codes "fern"
    ∷ codes "field"
    ∷ codes "finch"
    ∷ codes "fire"
    ∷ codes "flame"
    ∷ codes "flight"
    ∷ codes "flower"
    ∷ codes "forge"
    ∷ codes "forest"
    ∷ codes "foxglove"
    ∷ codes "garden"
    ∷ codes "gate"
    ∷ codes "glade"
    ∷ codes "glow"
    ∷ codes "grove"
    ∷ codes "harbor"
    ∷ codes "haven"
    ∷ codes "hawk"
    ∷ codes "heart"
    ∷ codes "hill"
    ∷ codes "hollow"
    ∷ codes "horse"
    ∷ codes "hound"
    ∷ codes "house"
    ∷ codes "isle"
    ∷ codes "jasper"
    ∷ codes "keeper"
    ∷ codes "kite"
    ∷ codes "lake"
    ∷ codes "lamb"
    ∷ codes "land"
    ∷ codes "leaf"
    ∷ codes "light"
    ∷ codes "lily"
    ∷ codes "lodge"
    ∷ codes "marsh"
    ∷ codes "meadow"
    ∷ codes "mist"
    ∷ codes "moon"
    ∷ codes "moss"
    ∷ codes "nest"
    ∷ codes "night"
    ∷ codes "north"
    ∷ codes "orchard"
    ∷ codes "path"
    ∷ codes "peak"
    ∷ codes "pine"
    ∷ codes "plume"
    ∷ codes "pond"
    ∷ codes "rain"
    ∷ codes "reef"
    ∷ codes "ridge"
    ∷ codes "rise"
    ∷ codes "river"
    ∷ codes "road"
    ∷ codes "rock"
    ∷ codes "root"
    ∷ codes "rose"
    ∷ codes "sail"
    ∷ codes "shade"
    ∷ codes "shell"
    ∷ codes "shore"
    ∷ codes "skyline"
    ∷ codes "song"
    ∷ codes "spark"
    ∷ codes "spring"
    ∷ codes "star"
    ∷ codes "stone"
    ∷ codes "storm"
    ∷ codes "stream"
    ∷ codes "sunrise"
    ∷ codes "tail"
    ∷ codes "thorn"
    ∷ codes "tide"
    ∷ codes "tower"
    ∷ codes "trail"
    ∷ codes "tree"
    ∷ codes "vale"
    ∷ codes "view"
    ∷ codes "walk"
    ∷ codes "water"
    ∷ codes "wave"
    ∷ codes "wayfarer"
    ∷ codes "whistle"
    ∷ codes "wind"
    ∷ codes "wing"
    ∷ codes "wood"
    ∷ codes "work"
    ∷ codes "wren"
    ∷ codes "yard"
    ∷ codes "zephyr"
    ∷ codes "harvest"
    ∷ codes "lantern"
    ∷ codes "lotus"
    ∷ codes "maple"
    ∷ codes "meteor"
    ∷ codes "willow"
    ∷ []
