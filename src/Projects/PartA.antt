-- ===== src/Projects/PartA.antt =====
-- Entries of PROJECTS of scripts/run_oss_batch_after_read_check_elimination.py: from ffmpeg to
-- brotli.
use desan.Prelude.{false, none, some, [], ◌++◌}
use desan.Py.Text.{codes}
use desan.Driver.{Project}

abbrev pub ffmpeg : Project
ffmpeg = record {
  archive = none;
  repo = some (codes "https://github.com/FFmpeg/FFmpeg.git");
  ref = codes "n6.1.1";
  submodules = false;
  build = some (
      codes "./configure --cc=\"$CC\" --cxx=\"$CXX\" --disable-asm --disable-x86asm "
      ++ codes "--disable-doc --disable-debug --disable-network --disable-autodetect "
      ++ codes "--disable-everything --enable-ffmpeg --enable-avcodec "
      ++ codes "--enable-avformat --enable-avfilter --enable-avdevice "
      ++ codes "--enable-swscale --enable-swresample --enable-protocol=file "
      ++ codes "--enable-indev=lavfi --enable-filter=testsrc2 --enable-filter=sine "
      ++ codes "--enable-filter=null --enable-filter=anull --enable-muxer=null "
      ++ codes "--enable-decoder=wrapped_avframe --enable-decoder=pcm_s16le "
      ++ codes "--enable-encoder=wrapped_avframe --enable-encoder=pcm_s16le && make "
      ++ codes "-j\"$JOBS\" ffmpeg");
  artifact = codes "ffmpeg";
  run =
      codes "for i in $(seq 1 \"$LOOPS\"); do \"$APP\" -hide_banner -nostdin -v error "
      ++ codes "-f lavfi -i testsrc2=size=128x128:rate=30:d=1 -f null - >/dev/null; "
      ++ codes "\"$APP\" -hide_banner -nostdin -v error -f lavfi -i "
      ++ codes "sine=frequency=1000:duration=1 -f null - >/dev/null; done";
}

abbrev pub imagemagick : Project
imagemagick = record {
  archive = none;
  repo = some (codes "https://github.com/ImageMagick/ImageMagick.git");
  ref = codes "7.1.1-38";
  submodules = false;
  build = some (
      codes "./configure CC=\"$CC\" CXX=\"$CXX\" CFLAGS=\"$CFLAGS\" CXXFLAGS=\"$CXXFLAGS\" "
      ++ codes "--disable-shared --enable-static --disable-openmp --without-bzlib "
      ++ codes "--without-djvu --without-fftw --without-fontconfig --without-freetype "
      ++ codes "--without-gslib --without-heic --without-jbig --without-jpeg "
      ++ codes "--without-lcms --without-lqr --without-lzma --without-openexr "
      ++ codes "--without-pango --without-png --without-raqm --without-tiff "
      ++ codes "--without-webp --without-wmf --without-xml --without-zlib --without-x "
      ++ codes "--without-magick-plus-plus --without-perl && make -j\"$JOBS\" "
      ++ codes "utilities/magick");
  artifact = codes "utilities/magick";
  run =
      codes "set -e; for i in $(seq 1 \"$LOOPS\"); do \"$APP\" \"$BENCH/input.ppm\" "
      ++ codes "-resize 96x96 -colorspace Gray \"$BENCH/out.pgm\" >/dev/null; \"$APP\" "
      ++ codes "identify \"$BENCH/out.pgm\" >/dev/null; rm -f \"$BENCH/out.pgm\"; done";
}

abbrev pub zlib : Project
zlib = record {
  archive = none;
  repo = some (codes "https://github.com/madler/zlib.git");
  ref = codes "v1.3.1";
  submodules = false;
  build = some (codes "./configure --static && make -j\"$JOBS\" minigzip");
  artifact = codes "minigzip";
  run =
      codes "for i in $(seq 1 \"$LOOPS\"); do \"$APP\" -c \"$BENCH/input.txt\" "
      ++ codes ">\"$BENCH/input.txt.gz\"; \"$APP\" -d -c \"$BENCH/input.txt.gz\" "
      ++ codes ">/dev/null; rm -f \"$BENCH/input.txt.gz\"; done";
}

abbrev pub bzip2 : Project
bzip2 = record {
  archive = none;
  repo = some (codes "https://sourceware.org/git/bzip2.git");
  ref = codes "bzip2-1.0.8";
  submodules = false;
  build = some (codes "make -j\"$JOBS\" CC=\"$CC\" CFLAGS=\"$CFLAGS\" bzip2");
  artifact = codes "bzip2";
  run =
      codes "for i in $(seq 1 \"$LOOPS\"); do \"$APP\" -c \"$BENCH/input.txt\" "
      ++ codes ">\"$BENCH/input.txt.bz2\"; \"$APP\" -d -c \"$BENCH/input.txt.bz2\" "
      ++ codes ">/dev/null; rm -f \"$BENCH/input.txt.bz2\"; done";
}

abbrev pub gzip : Project
gzip = record {
  archive = some (codes "https://ftp.gnu.org/gnu/gzip/gzip-1.13.tar.xz");
  repo = none;
  ref = [];
  submodules = false;
  build = some (
      codes "./configure CC=\"$CC\" CFLAGS=\"$CFLAGS\" --disable-nls "
      ++ codes "--disable-dependency-tracking && make -j\"$JOBS\"");
  artifact = codes "gzip";
  run =
      codes "for i in $(seq 1 \"$LOOPS\"); do \"$APP\" -c \"$BENCH/input.txt\" "
      ++ codes ">\"$BENCH/input.txt.gz\"; \"$APP\" -d -c \"$BENCH/input.txt.gz\" "
      ++ codes ">/dev/null; rm -f \"$BENCH/input.txt.gz\"; done";
}

abbrev pub xz : Project
xz = record {
  archive =
      some (codes "https://github.com/tukaani-project/xz/releases/download/v5.6.2/xz-5.6.2.tar.xz");
  repo = none;
  ref = [];
  submodules = false;
  build = some (
      codes "./configure CC=\"$CC\" CFLAGS=\"$CFLAGS\" --disable-shared "
      ++ codes "--enable-static --disable-nls --disable-scripts && make -j\"$JOBS\"");
  artifact = codes "src/xz/xz";
  run =
      codes "for i in $(seq 1 \"$LOOPS\"); do \"$APP\" -c \"$BENCH/input.txt\" "
      ++ codes ">/dev/null; done";
}

abbrev pub zstd : Project
zstd = record {
  archive = none;
  repo = some (codes "https://github.com/facebook/zstd.git");
  ref = codes "v1.5.6";
  submodules = false;
  build = some (codes "make -j\"$JOBS\" CC=\"$CC\" CFLAGS=\"$CFLAGS\" zstd");
  artifact = codes "programs/zstd";
  run =
      codes "for i in $(seq 1 \"$LOOPS\"); do \"$APP\" -q -f \"$BENCH/input.txt\" -o "
      ++ codes "\"$BENCH/input.txt.zst\"; \"$APP\" -q -d -f \"$BENCH/input.txt.zst\" -c "
      ++ codes ">/dev/null; rm -f \"$BENCH/input.txt.zst\"; done";
}

abbrev pub lz4 : Project
lz4 = record {
  archive = none;
  repo = some (codes "https://github.com/lz4/lz4.git");
  ref = codes "v1.9.4";
  submodules = false;
  build = some (codes "make -j\"$JOBS\" CC=\"$CC\" CFLAGS=\"$CFLAGS\" lz4");
  artifact = codes "programs/lz4";
  run =
      codes "for i in $(seq 1 \"$LOOPS\"); do \"$APP\" -q -f \"$BENCH/input.txt\" "
      ++ codes "\"$BENCH/input.txt.lz4\"; \"$APP\" -q -d -f \"$BENCH/input.txt.lz4\" -c "
      ++ codes ">/dev/null; rm -f \"$BENCH/input.txt.lz4\"; done";
}

abbrev pub brotli : Project
brotli = record {
  archive = none;
  repo = some (codes "https://github.com/google/brotli.git");
  ref = codes "v1.1.0";
  submodules = false;
  build = some (
      codes "cmake -S . -B build -G Ninja -DCMAKE_C_COMPILER=\"$CC\" "
      ++ codes "-DCMAKE_CXX_COMPILER=\"$CXX\" -DCMAKE_C_FLAGS=\"$CFLAGS\" "
      ++ codes "-DCMAKE_CXX_FLAGS=\"$CXXFLAGS\" -DBUILD_SHARED_LIBS=OFF && cmake "
      ++ codes "--build build --target brotli -j\"$JOBS\"");
  artifact = codes "build/brotli";
  run =
      codes "for i in $(seq 1 \"$LOOPS\"); do \"$APP\" -f \"$BENCH/input.txt\" -o "
      ++ codes "\"$BENCH/input.txt.br\"; \"$APP\" -d -f \"$BENCH/input.txt.br\" -o "
      ++ codes "\"$BENCH/input.txt.out\"; rm -f \"$BENCH/input.txt.br\" "
      ++ codes "\"$BENCH/input.txt.out\"; done";
}
